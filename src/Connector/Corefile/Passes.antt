-- ===== src/Connector/Corefile/Passes.antt =====
-- What a Corefile holds after any number of passes of `generateCorefileCM`.
use mathlib.Core.List.{Permᴰ}
use coredns_manager_operator.Common.{
  ℕ, zero, suc, ◌≡◌, ◌≢◌, refl, ap, subst, ◌∙◌, sym, some, List, [], ◌∷◌, ◌++◌, append_assoc,
  append-nil, All, All-append, inl, inr, length,
}
use coredns_manager_operator.Common.Text.{Text, newline, split, join}
use coredns_manager_operator.Common.Text.Equality.{eqb_refl}
use coredns_manager_operator.Common.Text.Lines.{
  unlines, unlines-append, split-Lacks, split-ne-nil, join-split,
}
use coredns_manager_operator.Common.Dict.{Dict, lookup, insert, lookup-insert}
use coredns_manager_operator.Common.Sort.Laws.{All-perm}
use coredns_manager_operator.Errors.{Error, Result, ok, err, ◌>>=◌, Result-cases}
use coredns_manager_operator.Api.Meta.{ConfigMap}
use coredns_manager_operator.Api.DnsConnector.{DnsConnectorSpec}
use coredns_manager_operator.Connector.Corefile.{
  corefile_blocks, write_blocks, new_corefile, generate_corefile_cm,
}
use coredns_manager_operator.Connector.Corefile.Markers.{IsUser, IsUser-nil}
use coredns_manager_operator.Connector.Corefile.Blocks.{IsPlain}
use coredns_manager_operator.Connector.Corefile.Rewriting.{
  NameDomains, corefile_blocks-AreBlocks, IsWritten, new_corefile_fresh, new_corefile_again,
}

-- What a pass is given: the connector, the zones, and the order of the range over the map.
pub record PassInput : Type 0 where
  pub spec : DnsConnectorSpec
  pub zones : List ConfigMap
  pub range_order : Dict Text → Dict Text

-- The connector and the zones hold texts of the usual form, and a range visits each entry once.
pub record IsUsual (key : Text) (i : PassInput) : Type 0 where
  pub corefile_key : i.spec.coredns_cm.corefile_key ≡ key
  pub plain : IsPlain i.spec
  pub domains : NameDomains i.zones
  pub visits : (m : Dict Text) → Permᴰ m (i.range_order m)

abbrev pub pass : PassInput → ConfigMap → Result ConfigMap
pass i cm = generate_corefile_cm i.range_order i.spec cm i.zones

-- The passes of one reconciliation after another.
abbrev pub passes : List PassInput → ConfigMap → Result ConfigMap
passes [] cm = ok cm
passes (i ∷ is) cm = pass i cm >>= passes is

unfoldable pub newlines : ℕ → Text
newlines zero = []
newlines (suc n) = newline ∷ newlines n

pub pass-eq :
    (i : PassInput) (cm : ConfigMap) (content : Text)
    → lookup i.spec.coredns_cm.corefile_key cm.contents ≡ some content
    → pass i cm ≡ (
        corefile_blocks i.spec i.zones [] >>= λ blocks. ok (record cm {
          contents =
              insert i.spec.coredns_cm.corefile_key
                (new_corefile i.range_order blocks content)
                cm.contents;
        }))
unfolding generate_corefile_cm
pass-eq i cm content found = rw (found, generate_corefile_cm)

pub lookup-insert_self : (k v : Text) (m : Dict Text) → lookup k (insert k v m) ≡ some v
lookup-insert_self k v m = rw (lookup-insert k k v m, eqb_refl k)

err-ne-ok {ℓ κ} : {A : Type ℓ} {B : Type κ} {e : Error} {a : A} → err e ≡ ok a → B
err-ne-ok h = cc

contents-eq : {c c' : ConfigMap} → ok c ≡ ok c' → c.contents ≡ c'.contents
contents-eq h = cc

-- A successful pass: its blocks, and the Corefile that it writes.
pub pass-eq-ok :
    (i : PassInput) (key content : Text) (cm : ConfigMap) {cm' : ConfigMap}
    → i.spec.coredns_cm.corefile_key ≡ key
    → lookup key cm.contents ≡ some content
    → pass i cm ≡ ok cm'
    → (blocks : Dict Text) × (corefile_blocks i.spec i.zones [] ≡ ok blocks)
      × (lookup key cm'.contents ≡ some (new_corefile i.range_order blocks content))
pass-eq-ok i key content cm {cm'} same_key found e =
    elim (Result-cases (corefile_blocks i.spec i.zones [])) [
      | inl (blocks, built) ↦ (
        blocks,
        built,
        let written : ok cm'
                ≡ ok (record cm {
                  contents = insert own (new_corefile i.range_order blocks content) cm.contents;
                }) =
              sym e ∙ (run ∙ rw built) in
            ap (lookup key) (contents-eq written)
            ∙ (ap
                  (λ k.
                    lookup key (insert k (new_corefile i.range_order blocks content) cm.contents))
                  same_key
                ∙ lookup-insert_self key _ cm.contents),
      )
      | inr (fault, failed) ↦
          let failing : pass i cm ≡ err fault = run ∙ rw failed in err-ne-ok (sym failing ∙ e)
    ]
  where
    own : Text
    own = i.spec.coredns_cm.corefile_key

    run : pass i cm ≡ (
        corefile_blocks i.spec i.zones [] >>= λ blocks. ok (record cm {
          contents = insert own (new_corefile i.range_order blocks content) cm.contents;
        }))
    run =
        pass-eq i cm content (subst (λ k. lookup k cm.contents ≡ some content) (sym same_key) found)

-- A pass over a text without markers.
first-IsWritten :
    (key content : Text) (i : PassInput) (cm : ConfigMap) {cm' : ConfigMap}
    → IsUsual key i
    → lookup key cm.contents ≡ some content
    → All IsUser (split content newline)
    → pass i cm ≡ ok cm'
    → (blocks : Dict Text) × (content' : Text) × (corefile_blocks i.spec i.zones [] ≡ ok blocks)
      × (lookup key cm'.contents ≡ some content')
      × IsWritten content' (split content newline) i.spec (i.range_order blocks)
first-IsWritten key content i cm usual found users e =
    let (blocks, built, written) = pass-eq-ok i key content cm usual.corefile_key found e in
    (
      blocks,
      _,
      built,
      written,
      record {
        reads = new_corefile_fresh i.range_order blocks content users;
        users = users;
        one_line = split-Lacks content newline;
        are_blocks =
            All-perm _ (usual.visits blocks)
              (corefile_blocks-AreBlocks i.spec i.zones [] usual.domains tt built);
        plain = usual.plain;
      },
    )

-- A pass over a text that an earlier one wrote.
next-IsWritten :
    (key content : Text) (lines : List Text) (spec : DnsConnectorSpec) (old : Dict Text)
    (i : PassInput) (cm : ConfigMap) {cm' : ConfigMap}
    → IsUsual key i
    → lookup key cm.contents ≡ some content
    → IsWritten content lines spec old
    → pass i cm ≡ ok cm'
    → (blocks : Dict Text) × (content' : Text) × (corefile_blocks i.spec i.zones [] ≡ ok blocks)
      × (lookup key cm'.contents ≡ some content')
      × IsWritten content' (lines ++ [] ∷ []) i.spec (i.range_order blocks)
next-IsWritten key content lines spec old i cm usual found w e =
    let (blocks, built, written) = pass-eq-ok i key content cm usual.corefile_key found e in
    let are_blocks = corefile_blocks-AreBlocks i.spec i.zones [] usual.domains tt built in
    (
      blocks,
      _,
      built,
      written,
      record {
        reads = new_corefile_again i.range_order blocks i.spec content lines spec old w are_blocks;
        users = All-append _ lines _ w.users (IsUser-nil, tt);
        one_line = All-append _ lines _ w.one_line (tt, tt);
        are_blocks = All-perm _ (usual.visits blocks) are_blocks;
        plain = usual.plain;
      },
    )

empties : ℕ → List Text
empties zero = []
empties (suc n) = [] ∷ empties n

-- Passes over a text that an earlier one wrote.
passes-IsWritten :
    (key : Text) (is : List PassInput) (content : Text) (lines : List Text)
    (spec : DnsConnectorSpec) (old : Dict Text) (cm : ConfigMap) {cm' : ConfigMap}
    → All (IsUsual key) is
    → lookup key cm.contents ≡ some content
    → IsWritten content lines spec old
    → passes is cm ≡ ok cm'
    → (content' : Text) × (spec' : DnsConnectorSpec) × (blocks : Dict Text) × (lookup key
          cm'.contents
        ≡ some content')
      × IsWritten content' (lines ++ empties (length is)) spec' blocks
unfolding empties
passes-IsWritten key [] content lines spec old cm us found w e =
    (content, spec, old, ap (lookup key) (contents-eq (sym e)) ∙ found, rw append-nil w)
passes-IsWritten key (i ∷ is) content lines spec old cm {cm'} (u, us) found w e =
    elim (Result-cases (pass i cm)) [
      | inl (cm₁, done) ↦
          let (blocks, content₁, built, found₁, w₁) =
            next-IsWritten key content lines spec old i cm u found w done in
          let (content', spec', blocks', found', w') =
            passes-IsWritten key is content₁ (lines ++ [] ∷ []) i.spec (i.range_order blocks) cm₁ us
              found₁ w₁ (subst (λ r. (r >>= passes is) ≡ ok cm') done e) in
          (
            content',
            spec',
            blocks',
            found',
            subst (λ ls. IsWritten content' ls spec' blocks') (append_assoc lines ([] ∷ []) _) w',
          )
      | inr (fault, failed) ↦ err-ne-ok (subst (λ r. (r >>= passes is) ≡ ok cm') failed e)
    ]

unlines-empties : (n : ℕ) → unlines (empties n) ≡ newlines n
unfolding empties newlines
unlines-empties zero = refl
unlines-empties (suc n) = ap (◌∷◌ newline) (unlines-empties n)

unlines_of_split : (ls : List Text) → ls ≢ [] → unlines ls ≡ join ls newline ++ newline ∷ []
unfolding join
unlines_of_split [] h = absurd (h refl)
unlines_of_split (l ∷ []) h = refl
unlines_of_split (l ∷ m ∷ ls) h = rw (unlines_of_split (m ∷ ls) (cc)) (sym (append_assoc l _ _))

lines_and_empties :
    (content : Text) (n : ℕ)
    → unlines (split content newline ++ empties n) ≡ content ++ newlines (suc n)
unfolding newlines
lines_and_empties content n =
    unlines-append (split content newline) (empties n)
    ∙ (ap (λ x. x ++ unlines (empties n))
          (unlines_of_split (split content newline) (split-ne-nil content newline))
        ∙ rw (join-split, unlines-empties, append_assoc))

empties-snoc : (n : ℕ) → empties n ++ [] ∷ [] ≡ empties (suc n)
unfolding empties
empties-snoc zero = refl
empties-snoc (suc n) = ap (◌∷◌ []) (empties-snoc n)

in_full :
    (found content rest : Text) (lines : List Text) (n : ℕ)
    → found ≡ unlines lines ++ rest
    → lines ≡ split content newline ++ empties n
    → found ≡ (content ++ newlines (suc n)) ++ rest
in_full found content rest lines n reads e =
    reads ∙ (ap (λ ls. unlines ls ++ rest) e ∙ ap (λ x. x ++ rest) (lines_and_empties content n))

-- Successful passes over a Corefile without markers, one after another, each with zones of its own:
-- the text is kept, with as many newlines behind it as there were passes, and then come the blocks
-- of the last pass's zones, and no others. The connector's texts are one line each, its plugin
-- lines are no markers, a domain is not empty and has no space and no number sign, the key of the
-- Corefile is the same in all passes, and a range over a map visits each entry once.
pub corefile_after_passes :
    (key content : Text) (is : List PassInput) (last : PassInput) (cm : ConfigMap)
    {cm₁ cm₂ : ConfigMap}
    → All (IsUsual key) is
    → IsUsual key last
    → lookup key cm.contents ≡ some content
    → All IsUser (split content newline)
    → passes is cm ≡ ok cm₁
    → pass last cm₁ ≡ ok cm₂
    → (blocks : Dict Text) × (corefile_blocks last.spec last.zones [] ≡ ok blocks)
      × (lookup key cm₂.contents
          ≡ some
              ((content ++ newlines (suc (length is))) ++ write_blocks (last.range_order blocks)))
corefile_after_passes key content [] last cm {cm₁} us u found users e f =
    let found₁ : lookup key cm₁.contents ≡ some content =
      ap (lookup key) (contents-eq (sym e)) ∙ found in
    let (blocks, content', built, written, w) =
      first-IsWritten key content last cm₁ u found₁ users f in
    (
      blocks,
      built,
      written
          ∙ ap some (
              in_full content' content _ (split content newline) 0 w.reads
                (unfold empties in sym (append-nil _))),
    )
corefile_after_passes key content (i ∷ is) last cm {cm₁} (u, us) u' found users e f =
    elim (Result-cases (pass i cm)) [
      | inl (cm₀, done) ↦
          let (b₀, content₀, built₀, found₀, w₀) =
            first-IsWritten key content i cm u found users done in
          let (content₁, spec₁, b₁, found₁, w₁) =
            passes-IsWritten key is content₀ (split content newline) i.spec (i.range_order b₀) cm₀
              us found₀ w₀ (subst (λ r. (r >>= passes is) ≡ ok cm₁) done e) in
          let (blocks, content₂, built, written, w) =
            next-IsWritten key content₁ _ spec₁ b₁ last cm₁ u' found₁ w₁ f in
          (
            blocks,
            built,
            written
                ∙ ap some (
                    in_full content₂ content _ _ (suc (length is)) w.reads (
                      append_assoc (split content newline) _ _
                      ∙ ap (λ es. split content newline ++ es) (empties-snoc (length is)))),
          )
      | inr (fault, failed) ↦ err-ne-ok (subst (λ r. (r >>= passes is) ≡ ok cm₁) failed e)
    ]

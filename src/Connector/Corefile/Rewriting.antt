-- ===== src/Connector/Corefile/Rewriting.antt =====
-- A pass over a Corefile without markers, and a pass over one that an earlier pass wrote.
use coredns_manager_operator.Common.{
  ◌≡◌, ◌≢◌, refl, ap, subst, ◌∙◌, Bool, false, none, some, List, [], ◌∷◌, ◌++◌, append-nil, arith,
  All, All-append, Bool-cases, Option-cases, inl, inr,
}
use coredns_manager_operator.Common.Text.{Text, newline, split, eqb, is_space}
use coredns_manager_operator.Common.Text.Equality.{eqb→eq}
use coredns_manager_operator.Common.Text.Lines.{Lacks, unlines, split-unlines, split-append_sep}
use coredns_manager_operator.Common.Dict.{Dict, lookup, insert}
use coredns_manager_operator.Errors.{ok}
use coredns_manager_operator.Api.Meta.{ConfigMap}
use coredns_manager_operator.Api.DnsConnector.{DnsConnectorSpec}
use coredns_manager_operator.Connector.Corefile.{
  space, domain_annotation, zonefile_name, block_body, config_block, corefile_blocks, write_blocks,
  new_corefile,
}
use coredns_manager_operator.Connector.Corefile.Markers.{
  IsUser, IsUser-nil, outside, NoneNamed, corefile_loop-outside, outside-append, outside_users,
  inside_at_end-IsUser,
}
use coredns_manager_operator.Connector.Corefile.Blocks.{
  IsDomain, IsPlain, begin_line, inner_lines, inner_lines-IsUser, end_line, body_lines,
  split-block_body, outside-body_lines, is_begin-end_line, marked_domain-begin_line,
}

-- Every block is that of its domain.
abbrev pub AreBlocks : DnsConnectorSpec → Dict Text → Type 0
AreBlocks spec = All (λ e. IsDomain e.0 × (e.1 ≡ config_block spec e.0))

insert-AreBlocks :
    (spec : DnsConnectorSpec) (d : Text) (blocks : Dict Text)
    → IsDomain d
    → AreBlocks spec blocks
    → AreBlocks spec (insert d (config_block spec d) blocks)
unfolding insert
insert-AreBlocks spec d [] hd h = ((hd, refl), tt)
insert-AreBlocks spec d ((k, v) ∷ blocks) hd (hk, h) = elim (Bool-cases (eqb k d)) [
  | inl same ↦ rw same ((hd, refl), h)
  | inr other ↦ rw other (hk, insert-AreBlocks spec d blocks hd h)
]

ok-injective : {a b : Dict Text} → ok a ≡ ok b → a ≡ b
ok-injective h = cc

-- The domains that the zone config maps name.
abbrev pub NameDomains : List ConfigMap → Type 0
NameDomains =
    All (λ cm. (d : Text) → lookup domain_annotation cm.meta.annotations ≡ some d → IsDomain d)

pub corefile_blocks-AreBlocks :
    (spec : DnsConnectorSpec) (cms : List ConfigMap) (old : Dict Text) {blocks : Dict Text}
    → NameDomains cms
    → AreBlocks spec old
    → corefile_blocks spec cms old ≡ ok blocks
    → AreBlocks spec blocks
unfolding corefile_blocks
corefile_blocks-AreBlocks spec [] old {blocks} hs h e = subst (AreBlocks spec) (ok-injective e) h
corefile_blocks-AreBlocks spec (cm ∷ cms) old (hd, hs) h e =
    elim (Option-cases (lookup domain_annotation cm.meta.annotations)) [
      | inl missing ↦ cc (rw (missing, corefile_blocks) at e)
      | inr (d, found) ↦ elim (Option-cases (lookup (zonefile_name d) cm.contents)) [
        | inl missing ↦ cc (rw (found, missing, corefile_blocks) at e)
        | inr (z, there) ↦
            corefile_blocks-AreBlocks spec cms (insert d (config_block spec d) old) hs
              (insert-AreBlocks spec d old (hd d found) h) (rw (found, there, corefile_blocks) at e)
      ]
    ]

-- The lines of the written blocks.
blocks_lines : DnsConnectorSpec → Dict Text → List Text
blocks_lines spec [] = []
blocks_lines spec ((d, v) ∷ blocks) =
    (begin_line d ∷ (inner_lines spec d ++ end_line d ∷ [])) ++ blocks_lines spec blocks

split-write_blocks :
    (spec : DnsConnectorSpec) (s : Text) (blocks : Dict Text)
    → IsPlain spec
    → AreBlocks spec blocks
    → split (s ++ write_blocks blocks) newline ≡ split s newline ++ blocks_lines spec blocks
unfolding write_blocks blocks_lines config_block
split-write_blocks spec s [] plain h = rw (append-nil, append-nil)
split-write_blocks spec s ((d, v) ∷ blocks) plain ((hd, e), h) =
    ap (λ b. split (s ++ (b ++ write_blocks blocks)) newline) e
    ∙ (split-append_sep s (block_body spec d ++ write_blocks blocks) newline
        ∙ ap (λ ls. split s newline ++ ls)
            (split-write_blocks spec (block_body spec d) blocks plain h
              ∙ ap (λ ls. ls ++ blocks_lines spec blocks) (split-block_body spec d plain hd)))

outside-blocks_lines :
    (spec : DnsConnectorSpec) (blocks : Dict Text)
    → IsPlain spec
    → AreBlocks spec blocks
    → (b : Bool) → outside b (blocks_lines spec blocks) ≡ []
unfolding blocks_lines body_lines
outside-blocks_lines spec [] plain h b = unfold outside in refl
outside-blocks_lines spec ((d, v) ∷ blocks) plain ((hd, e), h) b =
    outside-append b (body_lines spec d plain hd) (blocks_lines spec blocks)
    ∙ rw (outside-body_lines spec d plain hd b) (outside-blocks_lines spec blocks plain h _)

not_spaced : (k d : Text) → IsDomain k → k ≢ space ++ d
unfolding space is_space
not_spaced [] d h e = h.0 refl
not_spaced (c ∷ k) d (_, (hc, h)) e = ground arith

split-only_blocks :
    (spec : DnsConnectorSpec) (blocks : Dict Text)
    → IsPlain spec
    → AreBlocks spec blocks
    → split (write_blocks blocks) newline ≡ [] ∷ blocks_lines spec blocks
split-only_blocks spec blocks plain h =
    split-write_blocks spec [] blocks plain h ∙ unfold split in refl

outside-only_blocks :
    (spec : DnsConnectorSpec) (blocks : Dict Text)
    → IsPlain spec
    → AreBlocks spec blocks
    → outside false ([] ∷ blocks_lines spec blocks) ≡ [] ∷ []
unfolding outside
outside-only_blocks spec blocks plain h =
    rw (IsUser-nil.0, IsUser-nil.1) (ap (◌∷◌ []) (outside-blocks_lines spec blocks plain h false))

lookup-space :
    (spec : DnsConnectorSpec) (d : Text) (blocks : Dict Text)
    → AreBlocks spec blocks
    → lookup (space ++ d) blocks ≡ none
unfolding lookup
lookup-space spec d [] h = refl
lookup-space spec d ((k, v) ∷ blocks) ((hk, e), h) = elim (Bool-cases (eqb k (space ++ d))) [
  | inl same ↦ absurd (not_spaced k d hk (eqb→eq k (space ++ d) same))
  | inr other ↦ rw other (lookup-space spec d blocks h)
]

NoneNamed-IsUser : (blocks : Dict Text) (ls : List Text) → All IsUser ls → NoneNamed blocks ls
NoneNamed-IsUser blocks [] h = tt
NoneNamed-IsUser blocks (l ∷ ls) (hl, h) = ((λ b. cc), NoneNamed-IsUser blocks ls h)

NoneNamed-blocks_lines :
    (spec spec' : DnsConnectorSpec) (old blocks : Dict Text)
    → IsPlain spec
    → AreBlocks spec old
    → AreBlocks spec' blocks
    → NoneNamed blocks (blocks_lines spec old)
unfolding blocks_lines
NoneNamed-blocks_lines spec spec' [] blocks plain h h' = tt
NoneNamed-blocks_lines spec spec' ((d, v) ∷ old) blocks plain ((hd, e), h) h' =
    All-append _ (begin_line d ∷ (inner_lines spec d ++ end_line d ∷ [])) _
      (
        (λ b. rw (marked_domain-begin_line d hd) (lookup-space spec' d blocks h')),
        All-append _ (inner_lines spec d) _
            (NoneNamed-IsUser blocks _ (inner_lines-IsUser spec d plain hd))
            ((λ b. cc (is_begin-end_line d hd)), tt),
      )
      (NoneNamed-blocks_lines spec spec' old blocks plain h h')

-- A Corefile as a pass leaves it: lines that are no markers, and then blocks.
pub record IsWritten (content : Text) (lines : List Text) (spec : DnsConnectorSpec)
    (blocks : Dict Text) : Type 0 where
  pub reads : content ≡ unlines lines ++ write_blocks blocks
  pub users : All IsUser lines
  pub one_line : All (Lacks newline) lines
  pub are_blocks : AreBlocks spec blocks
  pub plain : IsPlain spec

-- A text without markers is kept, with a newline behind it and then the blocks.
pub new_corefile_fresh :
    (range_order : Dict Text → Dict Text) (blocks : Dict Text) (content : Text)
    → All IsUser (split content newline)
    → new_corefile range_order blocks content
      ≡ unlines (split content newline) ++ write_blocks (range_order blocks)
unfolding new_corefile
new_corefile_fresh range_order blocks content h = rw (
  corefile_loop-outside (split content newline) false blocks [] (NoneNamed-IsUser blocks _ h),
  outside_users _ h,
)

-- A further pass keeps the lines, adds an empty one, and writes the new blocks for the old.
pub new_corefile_again :
    (range_order : Dict Text → Dict Text) (blocks : Dict Text) (spec' : DnsConnectorSpec)
    (content : Text) (lines : List Text) (spec : DnsConnectorSpec) (old : Dict Text)
    → IsWritten content lines spec old
    → AreBlocks spec' blocks
    → new_corefile range_order blocks content
      ≡ unlines (lines ++ [] ∷ []) ++ write_blocks (range_order blocks)
unfolding new_corefile
new_corefile_again range_order blocks spec' content lines spec old w h =
    rw (lines_of, corefile_loop-outside all_lines false blocks [] none_named, outside_all)
  where
    all_lines : List Text
    all_lines = lines ++ ([] ∷ blocks_lines spec old)

    lines_of : split content newline ≡ all_lines
    lines_of =
        ap (λ c. split c newline) w.reads
        ∙ (split-unlines lines (write_blocks old) w.one_line
            ∙ ap (λ ls. lines ++ ls) (split-only_blocks spec old w.plain w.are_blocks))

    none_named : NoneNamed blocks all_lines
    none_named = All-append _ lines _ (NoneNamed-IsUser blocks lines w.users) (
      (λ b. cc IsUser-nil.0),
      NoneNamed-blocks_lines spec spec' old blocks w.plain w.are_blocks h,
    )

    outside_all : outside false all_lines ≡ lines ++ [] ∷ []
    outside_all =
        outside-append false lines ([] ∷ blocks_lines spec old)
        ∙ ap (λ b. outside false lines ++ outside b ([] ∷ blocks_lines spec old))
            (inside_at_end-IsUser false lines w.users)
        ∙ (ap (λ ls. ls ++ outside false ([] ∷ blocks_lines spec old)) (outside_users lines w.users)
            ∙ ap (λ ls. lines ++ ls) (outside-only_blocks spec old w.plain w.are_blocks))

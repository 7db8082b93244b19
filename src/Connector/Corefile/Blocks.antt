-- ===== src/Connector/Corefile/Blocks.antt =====
-- A written block is read back as a block: its first and last lines are markers, and the lines
-- between them are not.
use coredns_manager_operator.Common.{
  ℕ, ◌≡◌, ◌≢◌, refl, ap, ◌∙◌, sym, Bool, true, false, List, [], ◌∷◌, ◌++◌, append_assoc, arith, All,
  All-append, if◌then◌else◌,
}
use coredns_manager_operator.Common.Text.{
  Text, text, newline, tab, split, trim_space, trim_left, trim_right, put_back, is_space,
  has_prefix,
}
use coredns_manager_operator.Common.Text.Lines.{Lacks, Lacks-append, split-append_sep, split_Lacks}
use coredns_manager_operator.Common.Text.Prefix.{has_prefix-append, trim_prefix-append}
use coredns_manager_operator.Api.DnsConnector.{DnsConnectorSpec}
use coredns_manager_operator.Api.DnsRecord.{ensure_fqdn}
use coredns_manager_operator.Zone.Construction.Contents.{ensure_fqdn-Lacks}
use coredns_manager_operator.Connector.Corefile.{
  block_start_prefix, block_end_prefix, space, zonefile_name, plugin_string, block_body,
}
use coredns_manager_operator.Connector.Corefile.Markers.{
  is_begin, is_end, marked_domain, IsUser, IsUser-of_head, IsUser-of_tab, outside, inside_at_end,
  outside-append, inside_at_end-append, inside_at_end-IsUser, outside_in_block,
}

-- A domain has a character, and none of white space nor `#`.
abbrev pub IsDomain : Text → Type 0
IsDomain d = (d ≢ []) × All (λ c. (is_space c ≡ false) × (c ≢ 35)) d

-- The connector's own texts are one line each, and a plugin line is no marker.
pub record IsPlain (spec : DnsConnectorSpec) : Type 0 where
  pub mount_dir : Lacks newline spec.coredns_deployment.zone_file_mount_dir
  pub plugins : All (λ p. Lacks newline p × IsUser p) spec.coredns_zone_enabled_plugins

trim_right-domain : (d : Text) → All (λ c. (is_space c ≡ false) × (c ≢ 35)) d → trim_right d ≡ d
unfolding trim_right put_back
trim_right-domain [] h = refl
trim_right-domain (c ∷ []) (hc, h) = rw (hc.0)
trim_right-domain (c ∷ d ∷ s) (hc, h) = rw (trim_right-domain (d ∷ s) h)

put_back-cons : (c : ℕ) (s t : Text) → t ≢ [] → put_back c (s ++ t) ≡ c ∷ (s ++ t)
unfolding put_back
put_back-cons c [] [] h = absurd (h refl)
put_back-cons c [] (d ∷ t) h = refl
put_back-cons c (d ∷ s) t h = refl

-- White space is cut off the end of a text only if all that follows it goes.
trim_right-append : (s t : Text) → trim_right t ≢ [] → trim_right (s ++ t) ≡ s ++ trim_right t
unfolding trim_right
trim_right-append [] t h = refl
trim_right-append (c ∷ s) t h = rw (trim_right-append s t h) (put_back-cons c s (trim_right t) h)

not-space-newline : (c : ℕ) → is_space c ≡ false → c ≢ newline
unfolding is_space
not-space-newline c h = ground arith

Lacks-newline_of_domain :
    (d : Text) → All (λ c. (is_space c ≡ false) × (c ≢ 35)) d → Lacks newline d
Lacks-newline_of_domain [] h = tt
Lacks-newline_of_domain (c ∷ d) (hc, h) = (not-space-newline c hc.0, Lacks-newline_of_domain d h)

-- The markers around the block of a domain.
abbrev pub begin_line : Text → Text
begin_line d = block_start_prefix ++ (space ++ d)

abbrev pub end_line : Text → Text
end_line d = block_end_prefix ++ (space ++ d)

trim_right-marker : (p d : Text) → IsDomain d → trim_right (p ++ (space ++ d)) ≡ p ++ (space ++ d)
trim_right-marker p d h =
    trim_right-append p (space ++ d) (rw after_space (unfold space in λ e. cc))
    ∙ ap (λ x. p ++ x) after_space
  where
    after_space : trim_right (space ++ d) ≡ space ++ d
    after_space =
        trim_right-append space d (rw (trim_right-domain d h.1) h.0)
        ∙ ap (λ x. space ++ x) (trim_right-domain d h.1)

trim_left-begin_line : (d : Text) → trim_left (begin_line d) ≡ begin_line d
unfolding trim_left is_space block_start_prefix
trim_left-begin_line d = refl

trim_left-end_line : (d : Text) → trim_left (end_line d) ≡ end_line d
unfolding trim_left is_space block_end_prefix
trim_left-end_line d = refl

trim_space-begin_line : (d : Text) → IsDomain d → trim_space (begin_line d) ≡ begin_line d
unfolding trim_space
trim_space-begin_line d h =
    ap trim_right (trim_left-begin_line d) ∙ trim_right-marker block_start_prefix d h

trim_space-end_line : (d : Text) → IsDomain d → trim_space (end_line d) ≡ end_line d
unfolding trim_space
trim_space-end_line d h =
    ap trim_right (trim_left-end_line d) ∙ trim_right-marker block_end_prefix d h

pub is_begin-begin_line : (d : Text) → IsDomain d → is_begin (begin_line d) ≡ true
unfolding is_begin
is_begin-begin_line d h = rw (trim_space-begin_line d h) (has_prefix-append block_start_prefix _)

is_end-end_line : (d : Text) → IsDomain d → is_end (end_line d) ≡ true
unfolding is_end
is_end-end_line d h = rw (trim_space-end_line d h) (has_prefix-append block_end_prefix _)

pub is_begin-end_line : (d : Text) → IsDomain d → is_begin (end_line d) ≡ false
unfolding is_begin
is_begin-end_line d h =
    rw (trim_space-end_line d h) (unfold has_prefix block_start_prefix block_end_prefix in refl)

pub marked_domain-begin_line : (d : Text) → IsDomain d → marked_domain (begin_line d) ≡ space ++ d
unfolding marked_domain
marked_domain-begin_line d h =
    rw (trim_space-begin_line d h) (trim_prefix-append block_start_prefix _)

-- The lines between the markers.
plugin_lines : List Text → List Text
plugin_lines [] = []
plugin_lines (p ∷ ps) = (tab ∷ p) ∷ plugin_lines ps

pub inner_lines : DnsConnectorSpec → Text → List Text
inner_lines spec d =
    (d ++ text ":53 {")
    ∷ (tab
        ∷ (text "file "
            ++ (spec.coredns_deployment.zone_file_mount_dir ++ (text "/" ++ zonefile_name d))))
    ∷ (plugin_lines spec.coredns_zone_enabled_plugins ++ text "}" ∷ [])

split_first-line :
    (l rest : Text) → Lacks newline l → split (l ++ newline ∷ rest) newline ≡ l ∷ split rest newline
split_first-line l rest h = rw (split-append_sep l rest newline, split_Lacks l newline h)

split-plugin_string :
    (l : Text) (ps : List Text) (rest : Text)
    → Lacks newline l
    → All (λ p. Lacks newline p × IsUser p) ps
    → split (l ++ (plugin_string ps ++ newline ∷ rest)) newline
      ≡ l ∷ (plugin_lines ps ++ split rest newline)
unfolding plugin_string plugin_lines
split-plugin_string l [] rest hl h = rw (split-append_sep l rest newline, split_Lacks l newline hl)
split-plugin_string l (p ∷ ps) rest hl (hp, h) =
    split-append_sep l _ newline
    ∙ rw (split_Lacks l newline hl) (
        ap (λ ls. l ∷ ls)
          (ap (λ y. split (tab ∷ y) newline) (append_assoc p _ _)
            ∙ split-plugin_string (tab ∷ p) ps rest (omega arith, hp.0) h))

zonefile_name-Lacks : (d : Text) → Lacks newline d → Lacks newline (zonefile_name d)
unfolding zonefile_name
zonefile_name-Lacks d h =
    Lacks-append newline (ensure_fqdn d) (text "zone") (ensure_fqdn-Lacks d h) (omega arith)

pub split-block_body :
    (spec : DnsConnectorSpec) (d : Text)
    → IsPlain spec
    → IsDomain d
    → split (block_body spec d) newline ≡ begin_line d ∷ (inner_lines spec d ++ end_line d ∷ [])
unfolding block_body inner_lines
split-block_body spec d plain h =
    split_first-line (begin_line d) _
      (Lacks-append newline block_start_prefix _ (unfold block_start_prefix in omega arith) spaced)
    ∙ ap (λ ls. begin_line d ∷ ls)
        (split_first-line (d ++ text ":53 {") _ (Lacks-append newline d _ in_domain (omega arith))
          ∙ ap (λ ls. (d ++ text ":53 {") ∷ ls)
              (split-plugin_string file_line spec.coredns_zone_enabled_plugins _ in_file
                  plain.plugins
                ∙ (ap (λ ls. file_line ∷ (plugins ++ ls))
                      (split_first-line (text "}") (end_line d) (omega arith)
                        ∙ ap (λ ls. text "}" ∷ ls)
                            (split_Lacks (end_line d) newline (
                              Lacks-append newline block_end_prefix _
                                (unfold block_end_prefix in omega arith) spaced)))
                    ∙ ap (λ ls. file_line ∷ ls)
                        (sym (append_assoc plugins (text "}" ∷ []) (end_line d ∷ []))))))
  where
    plugins : List Text
    plugins = plugin_lines spec.coredns_zone_enabled_plugins

    in_domain : Lacks newline d
    in_domain = Lacks-newline_of_domain d h.1

    spaced : Lacks newline (space ++ d)
    spaced = Lacks-append newline space d (unfold space in omega arith) in_domain

    file_line : Text
    file_line =
        tab
        ∷ (text "file "
            ++ (spec.coredns_deployment.zone_file_mount_dir ++ (text "/" ++ zonefile_name d)))

    in_file : Lacks newline file_line
    in_file = Lacks-append newline (tab ∷ text "file ") _ (omega arith) (
        Lacks-append newline spec.coredns_deployment.zone_file_mount_dir _ plain.mount_dir
          (Lacks-append newline (text "/") _ (omega arith) (zonefile_name-Lacks d in_domain)))

plugin_lines-IsUser :
    (ps : List Text) → All (λ p. Lacks newline p × IsUser p) ps → All IsUser (plugin_lines ps)
unfolding plugin_lines
plugin_lines-IsUser [] h = tt
plugin_lines-IsUser (p ∷ ps) (hp, h) = (IsUser-of_tab p hp.1, plugin_lines-IsUser ps h)

IsUser-of_domain : (d s : Text) → IsDomain d → IsUser (d ++ s)
IsUser-of_domain [] s h = absurd (h.0 refl)
IsUser-of_domain (c ∷ d) s (_, (hc, h)) = IsUser-of_head c (d ++ s) hc.0 hc.1

pub inner_lines-IsUser :
    (spec : DnsConnectorSpec) (d : Text)
    → IsPlain spec
    → IsDomain d
    → All IsUser (inner_lines spec d)
unfolding inner_lines
inner_lines-IsUser spec d plain h = (
  IsUser-of_domain d _ h,
  (
    IsUser-of_tab _ (IsUser-of_head b'f' _ (unfold is_space in refl) (omega arith)),
    All-append IsUser (plugin_lines spec.coredns_zone_enabled_plugins) (text "}" ∷ [])
        (plugin_lines-IsUser _ plain.plugins)
        (IsUser-of_head b'}' [] (unfold is_space in refl) (omega arith), tt),
  ),
)

-- The lines of a block lie inside it, and it is closed behind them.
module _ (spec : DnsConnectorSpec) (d : Text) (plain : IsPlain spec) (h : IsDomain d) where
  unfoldable pub body_lines : List Text
  body_lines = begin_line d ∷ (inner_lines spec d ++ end_line d ∷ [])

  pub outside-body_lines : (b : Bool) → outside b body_lines ≡ []
  unfolding outside body_lines
  outside-body_lines b = rw (
    is_begin-begin_line d h,
    outside-append,
    outside_in_block _ (inner_lines-IsUser spec d plain h),
    inside_at_end-IsUser true _ (inner_lines-IsUser spec d plain h),
    is_begin-end_line d h,
    is_end-end_line d h,
  )

  pub inside_at_end-body_lines : (b : Bool) → inside_at_end b body_lines ≡ false
  unfolding inside_at_end body_lines
  inside_at_end-body_lines b =
      inside_at_end-append
        (if is_begin (begin_line d) then true else if is_end (begin_line d) then false else b)
        (inner_lines spec d) (end_line d ∷ [])
      ∙ rw (is_begin-end_line d h, is_end-end_line d h)

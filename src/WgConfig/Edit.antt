-- ===== src/WgConfig/Edit.antt =====
-- The lines that `UpdateWGConf` of internal/wgconfig/wgconfig.go puts together.
pub mod Update
use mathlib.Core.List.{append-nil}
use wireguard_natter_helper.Prelude.{
  if◌then◌else◌, Bool-cases, length, take, drop, get_elem?, All, split_if, split_option, some_inj,
  not_some, ℕ, suc, String, ◌≡◌, refl, sym, ap, ◌∙◌, subst, ◌⊎◌, inl, inr, true, false, Option,
  none, some, List, [], ◌∷◌, ◌++◌,
}
use wireguard_natter_helper.Strings.Split.{join}
use wireguard_natter_helper.WgConfig.Search.{split_keep_newline, Scan, start_of_file, scan}
use wireguard_natter_helper.WgConfig.Lines.{
  IsEndpoint, StartsSection, InSection, Place, EndpointAt, searched-Found,
}
use wireguard_natter_helper.WgConfig.Terminated.{
  is_terminated, Terminated, before-Terminated, lines-Terminated,
}
use wireguard_natter_helper.WgConfig.{up_to_date, updated_lines}
use Prim.Native.Nat.{◌/◌}
use mathlib.Core.List.{append-nil}
use text.Mathlib.TextLemmas.{nil-append, append-nil as append_empty}

-- The line that is written takes the place of an endpoint's line of the peer's section, or, where
-- the search finds none in that section, stands behind the section's last line. It is a line of its
-- own unless the text before it ends without a newline. All other lines are kept.
pub data Edit (key raw next : String) : String → Type 0 where
  replaced :
      (before : List String) (line : String) (after : List String)
      → split_keep_newline raw ≡ before ++ line ∷ after
      → InSection key before
      → All Terminated before
      → IsEndpoint line
      → up_to_date line next ≡ false
      → Edit key raw next (join (before ++ next ∷ after))
  inserted :
      (before after : List String)
      → split_keep_newline raw ≡ before ++ after
      → InSection key before
      → (scan key 0 before start_of_file).endpoint_index ≡ none
      → StartsSection after
      → All Terminated before ⊎ ((after ≡ []) × (is_terminated raw ≡ false))
      → Edit key raw next (join (before ++ next ∷ after))

-- The peer's section has the endpoint already.
pub record Current (key raw next : String) : Type 0 where
  pub before : List String
  pub line : String
  pub after : List String
  pub splits : split_keep_newline raw ≡ before ++ line ∷ after
  pub inside : InSection key before
  pub is_endpoint : IsEndpoint line
  pub same : up_to_date line next ≡ true

take-length : (xs ys : List String) → take (length xs) (xs ++ ys) ≡ xs
take-length [] ys = refl
take-length (x ∷ xs) ys = ap (◌∷◌ x) (take-length xs ys)

drop-length : (xs ys : List String) → drop (length xs) (xs ++ ys) ≡ ys
drop-length [] ys = refl
drop-length (x ∷ xs) ys = drop-length xs ys

drop-suc-length :
    (xs : List String) (y : String) (ys : List String) → drop (suc (length xs)) (xs ++ y ∷ ys) ≡ ys
drop-suc-length [] y ys = refl
drop-suc-length (x ∷ xs) y ys = drop-suc-length xs y ys

replaced_lines :
    (xs ys : List String) (y next : String)
    → take (length xs) (xs ++ y ∷ ys) ++ next ∷ drop (suc (length xs)) (xs ++ y ∷ ys)
      ≡ xs ++ next ∷ ys
replaced_lines xs ys y next = rw (take-length xs (y ∷ ys), drop-suc-length xs y ys) refl

inserted_line :
    (xs ys : List String) (next : String)
    → take (length xs) (xs ++ ys) ++ next ∷ drop (length xs) (xs ++ ys) ≡ xs ++ next ∷ ys
inserted_line xs ys next = rw (take-length xs ys, drop-length xs ys) refl

get_elem-middle :
    (xs : List String) (y : String) (ys : List String)
    → get_elem? (xs ++ y ∷ ys) (length xs) ≡ some y
get_elem-middle [] y ys = refl
get_elem-middle (x ∷ xs) y ys = get_elem-middle xs y ys

module _ (key raw next : String) where
  abbrev whole : List String
  whole = split_keep_newline raw

  abbrev found : Scan
  found = scan key 0 whole start_of_file

  -- What becomes of the lines: nothing where they are current
  abbrev pub Outcome : Option (List String) → Type 0
  Outcome none = Current key raw next
  Outcome (some ls) = Edit key raw next (join ls)

  Outcome-replace :
      {i : ℕ} (p : EndpointAt key whole i)
      → up_to_date p.line next ≡ false
      → Edit key raw next (join (take i whole ++ next ∷ drop (suc i) whole))
  Outcome-replace p other =
      rw (p.splits, sym p.index, replaced_lines p.before p.after p.line next)
        (replaced p.before p.line p.after p.splits p.inside
          (before-Terminated raw p.before p.line p.after p.splits) p.is_endpoint other)

  own_line :
      (before after : List String)
      → whole ≡ before ++ after
      → All Terminated before ⊎ ((after ≡ []) × (is_terminated raw ≡ false))
  own_line before [] e = elim (Bool-cases (is_terminated raw)) [
    | inl t ↦ inl (subst (λ ls. All Terminated ls) (e ∙ append-nil before) (lines-Terminated raw t))
    | inr f ↦ inr (refl, f)
  ]
  own_line before (line ∷ after) e = inl (before-Terminated raw before line after e)

  Outcome-insert :
      {i : ℕ}
      → Place key whole i none
      → Edit key raw next (join (take i whole ++ next ∷ drop i whole))
  Outcome-insert p =
      rw (p.splits, sym p.index, inserted_line p.before p.after next)
        (inserted p.before p.after p.splits p.inside p.endpoint p.stops
          (own_line p.before p.after p.splits))

  whole_file :
      found.is_matching ≡ true
      → found.insert_index ≡ none
      → found.endpoint_index ≡ none
      → Place key whole (length whole) none
  whole_file m i e = record {
    before = whole;
    after = [];
    splits = sym (append-nil whole);
    index = refl;
    inside = (m, i);
    endpoint = e;
    stops = tt;
  }

  -- The line that the search found for the endpoint
  Outcome-endpoint :
      {i : ℕ}
      → EndpointAt key whole i
      → Outcome (elim (get_elem? whole i) [
        | none ↦ none
        | some line ↦
            if up_to_date line next then none else some (take i whole ++ next ∷ drop (suc i) whole)
      ])
  Outcome-endpoint {i} p =
      let at : get_elem? whole i ≡ some p.line =
        rw (p.splits, sym p.index) (get_elem-middle p.before p.line p.after) in
      split_option Outcome (get_elem? whole i) (λ e. not_some (sym e ∙ at))
        (λ line e.
          let same : line ≡ p.line = some_inj (sym e ∙ at) in
          split_if Outcome (up_to_date line next)
            (λ u. record {
              before = p.before;
              line = p.line;
              after = p.after;
              splits = p.splits;
              inside = p.inside;
              is_endpoint = p.is_endpoint;
              same = subst (λ l. up_to_date l next ≡ true) same u;
            })
            (λ u. Outcome-replace p (subst (λ l. up_to_date l next ≡ false) same u)))

  pub updated_lines-Outcome : found.is_matching ≡ true → Outcome (updated_lines next found whole)
  unfolding updated_lines
  updated_lines-Outcome m =
      let knows = searched-Found key whole in
      split_option Outcome found.endpoint_index
        (λ none_found.
          split_option (λ (n : ℕ). Edit key raw next (join (take n whole ++ next ∷ drop n whole)))
            found.insert_index (λ i. Outcome-insert (whole_file m i none_found))
            (λ i e. Outcome-insert (subst (Place key whole i) none_found (knows.insert i e))))
        (λ i e. Outcome-endpoint (knows.endpoint i e))

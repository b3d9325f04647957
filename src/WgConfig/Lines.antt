-- ===== src/WgConfig/Lines.antt =====
-- What the search of `UpdateWGConf` knows of the lines it has passed.
use mathlib.Core.List.{append-nil, append_assoc}
use text.Mathlib.TextLemmas.{append-nil as append_empty}
use wireguard_natter_helper.Prelude.{
  length, length-append, ◌<>◌, split_if, some_inj, not_some, ℕ, suc, String, ◌≡◌, refl, sym, ap,
  ◌∙◌, subst, Bool, true, false, ◌&&◌, ◌||◌, not, Option, none, some, List, [], ◌∷◌, ◌++◌, arith,
  ◌==◌, eq_iff,
}
use wireguard_natter_helper.Strings.{trim_space, equal_fold}
use wireguard_natter_helper.Strings.Split.{split_after_lines, join, join-split_after_lines}
use wireguard_natter_helper.WgConfig.Search.{
  without_empty_last, split_keep_newline, Scan, start_of_file, setting, is_section, is_skipped,
  scan_line, scan,
}

join-without_empty_last : (ss : List String) → join (without_empty_last ss) ≡ join ss
unfolding join without_empty_last
join-without_empty_last [] = refl
join-without_empty_last (s ∷ []) =
    split_if (λ ss. join ss ≡ s <> "") (s == "") (λ e. sym (append_empty s ∙ (eq_iff s "").0 e))
      (λ _. refl)
join-without_empty_last (s ∷ t ∷ ss) = ap (λ u. s <> u) (join-without_empty_last (t ∷ ss))

pub join-split_keep_newline : (raw : String) → join (split_keep_newline raw) ≡ raw
unfolding join split_keep_newline
join-split_keep_newline raw =
    split_if (λ ss. join ss ≡ raw) (raw == "") (λ e. sym ((eq_iff raw "").0 e))
      (λ _. join-without_empty_last (split_after_lines raw) ∙ join-split_after_lines raw)

both : (a b : Bool) → (a && b) ≡ true → (a ≡ true) × (b ≡ true)
both a b e = ground arith

-- The line sets an endpoint.
abbrev pub IsEndpoint : String → Type 0
IsEndpoint line = equal_fold (setting (trim_space line)).0 "Endpoint" ≡ true

-- Nothing, or the line of a section's name
abbrev pub StartsSection : List String → Type 0
StartsSection [] = Unit
StartsSection (line ∷ _) = is_section (trim_space line) ≡ true

module _ (key : String) where
  abbrev searched : List String → Scan
  searched lines = scan key 0 lines start_of_file

  -- The search through the lines does not stop, and ends in the section of the peer.
  abbrev pub InSection : List String → Type 0
  InSection before =
      ((searched before).is_matching ≡ true) × ((searched before).insert_index ≡ none)

  -- The lines before the number given end in the section of the peer, and so does that section. The
  -- endpoint found is the one of these lines.
  pub record Place (lines : List String) (i : ℕ) (endpoint_found : Option ℕ) : Type 0 where
    pub before : List String
    pub after : List String
    pub splits : lines ≡ before ++ after
    pub index : length before ≡ i
    pub inside : InSection before
    pub endpoint : (searched before).endpoint_index ≡ endpoint_found
    pub stops : StartsSection after

  pub record EndpointAt (lines : List String) (i : ℕ) : Type 0 where
    pub before : List String
    pub line : String
    pub after : List String
    pub splits : lines ≡ before ++ line ∷ after
    pub index : length before ≡ i
    pub inside : InSection before
    pub is_endpoint : IsEndpoint line

  EndpointAt-append :
      (lines : List String) {i : ℕ} (more : List String)
      → EndpointAt lines i
      → EndpointAt (lines ++ more) i
  EndpointAt-append lines more e = record {
    before = e.before;
    line = e.line;
    after = e.after ++ more;
    splits = ap (λ ls. ls ++ more) e.splits ∙ append_assoc e.before (e.line ∷ e.after) more;
    index = e.index;
    inside = e.inside;
    is_endpoint = e.is_endpoint;
  }

  -- The state after some lines that did not end the search
  record Passed (before : List String) (st : Scan) : Type 0 where
    goes_on : (rest : List String) → searched (before ++ rest) ≡ scan key (length before) rest st
    endpoint : (j : ℕ) → st.endpoint_index ≡ some j → EndpointAt before j
    no_insert : st.insert_index ≡ none

  pub record Found (lines : List String) (st : Scan) : Type 0 where
    pub endpoint : (j : ℕ) → st.endpoint_index ≡ some j → EndpointAt lines j
    pub insert : (j : ℕ) → st.insert_index ≡ some j → Place lines j st.endpoint_index

  Passed-here : (before : List String) (st : Scan) → Passed before st → searched before ≡ st
  unfolding scan
  Passed-here before st p = ap searched (sym (append-nil before)) ∙ p.goes_on []

  Passed-inside :
      (before : List String) (st : Scan)
      → Passed before st
      → st.is_matching ≡ true
      → InSection before
  Passed-inside before st p m =
      let here = Passed-here before st p in
      (
        ap (λ (s : Scan). s.is_matching) here ∙ m,
        ap (λ (s : Scan). s.insert_index) here ∙ p.no_insert,
      )

  EndpointAt-here :
      (before : List String) (line : String) (st : Scan)
      → Passed before st
      → (equal_fold (setting (trim_space line)).0 "Endpoint" && st.is_matching) ≡ true
      → EndpointAt (before ++ line ∷ []) (length before)
  EndpointAt-here before line st p e =
      let (is_endpoint, m) = both _ _ e in
      record {
        before = before;
        line = line;
        after = [];
        splits = refl;
        index = refl;
        inside = Passed-inside before st p m;
        is_endpoint = is_endpoint;
      }

  scan_line-endpoint :
      (before : List String) (line : String) (st : Scan)
      → Passed before st
      → (j : ℕ) → (scan_line key (length before) (trim_space line) st).endpoint_index ≡ some j
      → EndpointAt (before ++ line ∷ []) j
  unfolding scan_line
  scan_line-endpoint before line st p j =
      let t = trim_space line in
      let name = (setting t).0 in
      let Q : Scan → Type 0 = λ s. s.endpoint_index ≡ some j → EndpointAt (before ++ line ∷ []) j in
      let old : Q st = λ e. EndpointAt-append before (line ∷ []) (p.endpoint j e) in
      let new =
        λ (h : (equal_fold name "Endpoint" && st.is_matching) ≡ true)
            (e : some (length before) ≡ some j).
          subst (EndpointAt (before ++ line ∷ [])) (some_inj e)
            (EndpointAt-here before line st p h) in
      split_if Q (is_section t) (λ _ e. not_some e)
        (λ _.
          split_if Q (not st.is_in_peer || is_skipped t) (λ _. old)
            (λ _.
              split_if Q (equal_fold name "PublicKey" && (setting t).1 == key) (λ _. old)
                (λ _. split_if Q (equal_fold name "Endpoint" && st.is_matching) new (λ _. old))))

  scan_line-insert :
      (i : ℕ) (line : String) (st : Scan) → (scan_line key i line st).insert_index ≡ st.insert_index
  unfolding scan_line
  scan_line-insert i line st = ground arith

  suc-length :
      (before : List String) (line : String) → length (before ++ line ∷ []) ≡ suc (length before)
  suc-length before line = omega (arith, length-append before (line ∷ []))

  scan-next :
      (i : ℕ) (line : String) (rest : List String) (st : Scan)
      → (is_section (trim_space line) && (st.is_in_peer && st.is_matching)) ≡ false
      → scan key i (line ∷ rest) st ≡ scan key (suc i) rest (scan_line key i (trim_space line) st)
  unfolding scan
  scan-next i line rest st e = rw e refl

  Passed-step :
      (before : List String) (line : String) (st : Scan)
      → Passed before st
      → (is_section (trim_space line) && (st.is_in_peer && st.is_matching)) ≡ false
      → Passed (before ++ line ∷ []) (scan_line key (length before) (trim_space line) st)
  unfolding scan
  Passed-step before line st p e = record {
    goes_on = λ rest.
        ap searched (append_assoc before (line ∷ []) rest)
        ∙ p.goes_on (line ∷ rest)
        ∙ scan-next (length before) line rest st e
        ∙ ap (λ i. scan key i rest (scan_line key (length before) (trim_space line) st))
            (sym (suc-length before line));
    endpoint = scan_line-endpoint before line st p;
    no_insert = scan_line-insert (length before) (trim_space line) st ∙ p.no_insert;
  }

  Found-stop :
      (before rest : List String) (st : Scan)
      → Passed before st
      → st.is_matching ≡ true
      → StartsSection rest
      → Found (before ++ rest) (record st { insert_index = some (length before) })
  Found-stop before rest st p m starts = record {
    endpoint = λ j e. EndpointAt-append before rest (p.endpoint j e);
    insert = λ j e. record {
      before = before;
      after = rest;
      splits = refl;
      index = some_inj e;
      inside = Passed-inside before st p m;
      endpoint = ap (λ (s : Scan). s.endpoint_index) (Passed-here before st p);
      stops = starts;
    };
  }

  scan-Found :
      (before rest : List String) (st : Scan)
      → Passed before st
      → Found (before ++ rest) (scan key (length before) rest st)
  unfolding scan
  scan-Found before [] st p = record {
    endpoint = λ j e. EndpointAt-append before [] (p.endpoint j e);
    insert = λ j e. not_some (sym p.no_insert ∙ e);
  }
  scan-Found before (line ∷ rest) st p =
      split_if (Found (before ++ line ∷ rest)) _
        (λ h.
          let (starts, inside) = both _ _ h in
          Found-stop before (line ∷ rest) st p (both _ _ inside).1 starts)
        (λ h.
          let next = scan_line key (length before) (trim_space line) st in
          let passed = Passed-step before line st p h in
          subst (λ i. Found (before ++ line ∷ rest) (scan key i rest next)) (suc-length before line)
            (subst (λ ls. Found ls (scan key (length (before ++ line ∷ [])) rest next))
              (append_assoc before (line ∷ []) rest)
              (scan-Found (before ++ line ∷ []) rest next passed)))

  -- The search through a whole file
  pub searched-Found : (lines : List String) → Found lines (scan key 0 lines start_of_file)
  unfolding scan
  searched-Found lines =
      scan-Found [] lines start_of_file
        (record { goes_on = λ rest. refl; endpoint = λ j e. not_some e; no_insert = refl })

-- ===== src/WgConfig/Edit/Update.antt =====
-- What `UpdateWGConf` writes.
use Prim.Native.Nat.{◌/◌}
use wireguard_natter_helper.Prelude.{
  length, take, drop, ◌<>◌, pos, Result, ok, err, split_if, split_option, split_result, ok_inj,
  String, ◌≡◌, refl, sym, ap, ◌∙◌, subst, ◌⊎◌, inl, inr, true, false, not, none, some, List, [],
  ◌∷◌, ◌++◌, arith,
}
use wireguard_natter_helper.Map.{get?}
use wireguard_natter_helper.Strings.Split.{join, join-append}
use wireguard_natter_helper.Strings.Numbers.{itoa}
use wireguard_natter_helper.Host.{Host, Machine, read_file, write_file, write_file-written}
use wireguard_natter_helper.WgConfig.Search.{split_keep_newline, Scan, start_of_file, scan}
use wireguard_natter_helper.WgConfig.Lines.{join-split_keep_newline}
use wireguard_natter_helper.WgConfig.Edit.{Edit, Current, Outcome, updated_lines-Outcome}
use wireguard_natter_helper.WgConfig.Commands.{ApplyResult}
use wireguard_natter_helper.WgConfig.{endpoint_line, updated_lines, write_lines, update_wg_conf}
use text.Mathlib.TextLemmas.{append-nil as append_empty}

-- What a method returns with success
abbrev pub Returned : Host × Result ApplyResult → (Host → ApplyResult → Type 0) → Type 0
Returned (h, ok res) P = P h res
Returned (h, err e) P = Unit

write_lines-Returned :
    (env : Machine) (path raw : String) (lines : List String) (h : Host)
    → Returned
        (write_lines env path raw lines h)
        (λ h' res. (res.is_changed ≡ true) × (get? path h'.files ≡ some (join lines)))
unfolding write_lines
write_lines-Returned env path raw lines h =
    let backup = path <> ".bak." <> itoa (pos (env.now / 1_000_000_000)) in
    let h1 = (write_file env backup raw h).0 in
    ground (arith, write_file-written env path (join lines) h1)

-- The peer's section has the line and the files are as they were, or the file holds the text with
-- the line written into that section.
abbrev pub IsEdited : String → String → String → String → Host → Host → ApplyResult → Type 0
IsEdited path key next raw h h' res =
    ((res.is_changed ≡ false) × (h'.files ≡ h.files) × Current key raw next)
    ⊎ ((res.is_changed ≡ true)
        × ((edited : String) × (get? path h'.files ≡ some edited) × Edit key raw next edited))

Returned-map :
    {P Q : Host → ApplyResult → Type 0} (r : Host × Result ApplyResult)
    → Returned r P
    → ((h : Host) (res : ApplyResult) → P h res → Q h res)
    → Returned r Q
Returned-map (h, ok res) p f = f h res p
Returned-map (h, err e) p f = tt

pub update_wg_conf-Returned :
    (env : Machine) (path key endpoint raw : String) (h : Host)
    → read_file env path h ≡ ok raw
    → Returned
        (update_wg_conf env path key endpoint false h)
        (IsEdited path key (endpoint_line endpoint) raw h)
unfolding update_wg_conf
update_wg_conf-Returned env path key endpoint raw h r =
    let next = endpoint_line endpoint in
    let P = λ (o : Host × Result ApplyResult). Returned o (IsEdited path key next raw h) in
    split_result P (read_file env path h) (λ e _. tt)
      (λ text e.
        let lines = split_keep_newline text in
        let found = scan key 0 lines start_of_file in
        let same : text ≡ raw = ok_inj (sym e ∙ r) in
        split_if P (not found.is_matching) (λ _. tt)
          (λ m.
            let outcome = updated_lines-Outcome key text next (ground arith) in
            split_option P (updated_lines next found lines)
              (λ u. inl (
                refl,
                refl,
                subst (λ t. Current key t next) same (subst (Outcome key text next) u outcome),
              ))
              (λ ls u.
                let edit = subst (Outcome key text next) u outcome in
                Returned-map (write_lines env path text ls h)
                  (write_lines-Returned env path text ls h)
                  (λ h' res w.
                    inr (w.0, (join ls, w.1, subst (λ t. Edit key t next (join ls)) same edit))))))

updated_lines-end :
    (next : String) (found : Scan) (lines : List String)
    → found.endpoint_index ≡ none
    → found.insert_index ≡ none
    → updated_lines next found lines ≡ some (lines ++ next ∷ [])
unfolding updated_lines
updated_lines-end next found lines e i = rw (e, i) (ap some (inserted_end lines))
  where
    inserted_end :
        (ls : List String) → take (length ls) ls ++ next ∷ drop (length ls) ls ≡ ls ++ next ∷ []
    inserted_end [] = refl
    inserted_end (l ∷ ls) = ap (◌∷◌ l) (inserted_end ls)

-- When the peer's section is the last of the file and sets no endpoint that the search finds, a
-- successful update writes the endpoint's line directly behind the last character of the file.
pub update_wg_conf-end :
    (env : Machine) (path key endpoint raw : String) (h h' : Host) (res : ApplyResult)
    → read_file env path h ≡ ok raw
    → (scan key 0 (split_keep_newline raw) start_of_file).is_matching ≡ true
    → (scan key 0 (split_keep_newline raw) start_of_file).endpoint_index ≡ none
    → (scan key 0 (split_keep_newline raw) start_of_file).insert_index ≡ none
    → update_wg_conf env path key endpoint false h ≡ (h', ok res)
    → get? path h'.files ≡ some (raw <> endpoint_line endpoint)
unfolding update_wg_conf join
update_wg_conf-end env path key endpoint raw h h' res r m e i done =
    let lines = split_keep_newline raw in
    let next = endpoint_line endpoint in
    let ls = lines ++ next ∷ [] in
    let written : update_wg_conf env path key endpoint false h ≡ write_lines env path raw ls h =
      rw (update_wg_conf, r, updated_lines-end next (scan key 0 lines start_of_file) lines e i, m)
        refl in
    let text =
      subst (λ o. Returned o (λ h'' _. get? path h''.files ≡ some (join ls))) (sym written ∙ done)
        (Returned-map (write_lines env path raw ls h) (write_lines-Returned env path raw ls h)
          (λ _ _ w. w.1)) in
    text
    ∙ ap some (
        join-append lines (next ∷ [])
        ∙ ap (λ t. join lines <> t) (append_empty next)
        ∙ ap (λ t. t <> next) (join-split_keep_newline raw))

-- ===== src/Store/Events/Log.antt =====
-- `appendEventFileLocked` and `readEventsLocked` of internal/store/store.go on a log of whole
-- lines.
use mathlib.Core.List.{append-nil, append_assoc, reverse-cons, reverse-reverse}
use mathlib.Core.List.{append-nil, append_assoc, reverse-cons, reverse-reverse, reverse-append}
use wireguard_natter_helper.Prelude.{
  leb, nat_eq, length, length-append, All, All-append, ℤ, pos, ℕ, ◌+◌, ◌<◌, ◌≡◌, refl, sym, ap, ◌∙◌,
  subst, Bool, true, false, Option, none, some, List, [], ◌∷◌, ◌++◌, reverse, arith,
}
use wireguard_natter_helper.Store.Runtime.{Event}
use wireguard_natter_helper.Store.State.{Store, Env}
use wireguard_natter_helper.Store.Events.{appended, append_event_file_locked, events}
use wireguard_natter_helper.Store.Events.Bytes.{
  max_event_log_bytes, rotate_file_tail, max_scan_token_size, line_of, scan_from, scan_lines,
  decoded, newest_first,
}

-- A line as `json.Marshal` writes it: no control characters, and short enough for the scanner.
abbrev pub is_plain : ℕ → Bool
is_plain c = leb 32 c

pub record IsLine (line : List ℕ) : Type 0 where
  pub plain : All (λ c. is_plain c ≡ true) line
  pub short : length line < max_scan_token_size

scan_from-line :
    (line more rest : List ℕ)
    → All (λ c. is_plain c ≡ true) more
    → length line + length more < max_scan_token_size
    → scan_from line (more ++ 10 ∷ rest) ≡ line_of (reverse more ++ line) ∷ scan_from [] rest
unfolding scan_from
scan_from-line line [] rest h short = refl
scan_from-line line (c ∷ more) rest (x, h) short =
    let here : leb max_scan_token_size (length line + 1) ≡ false = ground arith in
    let middle : nat_eq c 10 ≡ false = ground arith in
    let turned : reverse (c ∷ more) ++ line ≡ reverse more ++ (c ∷ line) =
      ap (λ l. l ++ line) (reverse-cons c more) ∙ append_assoc (reverse more) (c ∷ []) line in
    let rest_scan = scan_from-line (c ∷ line) more rest h (omega arith) in
    ground (arith, here, middle, turned, rest_scan)

plain-reverse :
    (cs : List ℕ) → All (λ c. is_plain c ≡ true) cs → All (λ c. is_plain c ≡ true) (reverse cs)
plain-reverse [] h = tt
plain-reverse (c ∷ cs) (x, h) =
    subst (All (λ c. is_plain c ≡ true)) (sym (reverse-cons c cs))
      (All-append _ (reverse cs) (c ∷ []) (plain-reverse cs h) (x, tt))

line_of-plain : (cs : List ℕ) → All (λ c. is_plain c ≡ true) cs → line_of cs ≡ reverse cs
line_of-plain [] h = refl
line_of-plain (c ∷ cs) (x, h) = ground arith

-- The file's bytes when these lines were written
unfoldable pub log_of : List (List ℕ) → List ℕ
log_of [] = []
log_of (line ∷ lines) = line ++ 10 ∷ log_of lines

--
pub scan_lines-log_of :
    (lines : List (List ℕ)) (rest : List ℕ)
    → All IsLine lines
    → scan_lines (log_of lines ++ rest) ≡ lines ++ scan_lines rest
unfolding log_of scan_lines
scan_lines-log_of [] rest h = refl
scan_lines-log_of (line ∷ lines) rest (x, h) =
    let scanned = scan_from-line [] line (log_of lines ++ rest) x.plain (omega (arith, x.short)) in
    let back : line_of (reverse line ++ []) ≡ line =
      ap line_of (append-nil (reverse line))
      ∙ line_of-plain (reverse line) (plain-reverse line x.plain)
      ∙ reverse-reverse line in
    ap scan_lines (append_assoc line (10 ∷ log_of lines) rest)
    ∙ scanned
    ∙ ground (arith, back, scan_lines-log_of lines rest h)

log_of-append : (lines more : List (List ℕ)) → log_of (lines ++ more) ≡ log_of lines ++ log_of more
unfolding log_of
log_of-append [] more = refl
log_of-append (line ∷ lines) more =
    ap (λ l. line ++ 10 ∷ l) (log_of-append lines more)
    ∙ sym (append_assoc line (10 ∷ log_of lines) (log_of more))

decoded-append :
    (decode : List ℕ → Option Event) (xs ys : List (List ℕ))
    → decoded decode (xs ++ ys) ≡ decoded decode xs ++ decoded decode ys
unfolding decoded
decoded-append decode [] ys = refl
decoded-append decode (x ∷ xs) ys = ground (arith, decoded-append decode xs ys)

-- Reading a log of complete lines, each under 65536 bytes and without control characters, gives
-- the events that the lines decode to, newest first, up to the limit.
pub events-log_of :
    (decode : List ℕ → Option Event) (limit : ℤ) (lines : List (List ℕ)) (s : Store)
    → s.disk.events ≡ log_of lines
    → All IsLine lines
    → events decode limit s ≡ newest_first limit (decoded decode lines)
unfolding events
events-log_of decode limit lines s e h =
    let scanned : scan_lines s.disk.events ≡ lines =
      ap scan_lines (e ∙ sym (append-nil (log_of lines)))
      ∙ scan_lines-log_of lines [] h
      ∙ unfold scan_lines scan_from in append-nil lines in
    ap (λ ls. newest_first limit (decoded decode ls)) scanned

module _ (env : Env) (event : Event) (lines : List (List ℕ)) (s : Store)
    (log : s.disk.events ≡ log_of lines) (whole : All IsLine lines)
    (line : IsLine (env.encode_event event))
    (coded : env.decode_event (env.encode_event event) ≡ some event)
    (written : env.event_fault ≡ none) (kept : env.rotate_fault ≡ none)
    (fits : length s.disk.events + length (env.encode_event event) < max_event_log_bytes) where
  grown :
      (append_event_file_locked env event s).0.disk.events
      ≡ log_of (lines ++ env.encode_event event ∷ [])
  unfolding append_event_file_locked appended rotate_file_tail log_of
  grown =
      let bytes = s.disk.events ++ (env.encode_event event ++ 10 ∷ []) in
      let size : leb (length bytes) max_event_log_bytes ≡ true = ground (
        arith,
        length-append s.disk.events (env.encode_event event ++ 10 ∷ []),
        length-append (env.encode_event event) (10 ∷ []),
        fits,
      ) in
      rw (appended, written, kept, rotate_file_tail, size)
        (ap (λ l. l ++ (env.encode_event event ++ 10 ∷ [])) log
          ∙ sym (log_of-append lines (env.encode_event event ∷ [])))

  -- An event that is appended to a log of complete lines is the first that is read back, before
  -- all that were there, provided that its line has no control characters, is under 65536 bytes,
  -- decodes to it and fits the log, and that no file error occurs.
  pub events-appended :
      events env.decode_event (pos 0) (append_event_file_locked env event s).0
      ≡ event ∷ events env.decode_event (pos 0) s
  events-appended =
      let more = lines ++ env.encode_event event ∷ [] in
      let before = events-log_of env.decode_event (pos 0) lines s log whole in
      let after =
        events-log_of env.decode_event (pos 0) more (append_event_file_locked env event s).0 grown
          (All-append IsLine lines _ whole (line, tt)) in
      let last : decoded env.decode_event (env.encode_event event ∷ []) ≡ event ∷ [] =
        unfold decoded in rw (decoded, coded) refl in
      after
      ∙ ap reverse (
          decoded-append env.decode_event lines _
          ∙ ap (λ l. decoded env.decode_event lines ++ l) last)
      ∙ reverse-append (decoded env.decode_event lines) (event ∷ [])
      ∙ ap (λ l. event ∷ l) (sym before)

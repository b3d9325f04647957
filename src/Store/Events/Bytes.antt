-- ===== src/Store/Events/Bytes.antt =====
-- The byte level of the event log: `rotateFileTail`, and the line scanner that `readEventsLocked`
-- uses.
use wireguard_natter_helper.Prelude.{
  leb, nat_eq, if◌then◌else◌, length, take, drop, ℤ, pos, negsuc, ℕ, zero, suc, ◌+◌, ◌-◌, Option,
  none, some, List, [], ◌∷◌, reverse,
}

-- `maxEventLogBytes`
abbrev pub max_event_log_bytes : ℕ
max_event_log_bytes = 1048576

-- What follows the first newline.
unfoldable pub after_newline : List ℕ → Option (List ℕ)
after_newline [] = none
after_newline (c ∷ cs) = if nat_eq c 10 then some cs else after_newline cs

-- `if idx >= 0 && idx+1 < len(raw) { raw = raw[idx+1:] }`
unfoldable pub whole_lines : List ℕ → List ℕ
unfolding after_newline
whole_lines raw = elim (after_newline raw) [ none ↦ raw | some [] ↦ raw | some (c ∷ cs) ↦ c ∷ cs ]

-- `rotateFileTail` on the file's bytes.
unfoldable pub rotate_file_tail : ℕ → List ℕ → List ℕ
unfolding whole_lines
rotate_file_tail max_bytes raw =
    if leb (length raw) max_bytes then raw else whole_lines (drop (length raw - max_bytes) raw)

-- bufio's `MaxScanTokenSize`
abbrev pub max_scan_token_size : ℕ
max_scan_token_size = 65536

-- The line's bytes come last first; a carriage return at its end is dropped.
abbrev pub line_of : List ℕ → List ℕ
line_of [] = []
line_of (c ∷ cs) = if nat_eq c 13 then reverse cs else reverse (c ∷ cs)

-- `bufio.ScanLines` in a scanner's default buffer: a line that fills it ends the scan.
unfoldable pub scan_from : List ℕ → List ℕ → List (List ℕ)
scan_from line [] = elim line [ [] ↦ [] | c ∷ cs ↦ line_of (c ∷ cs) ∷ [] ]
scan_from line (c ∷ cs) =
    let next = scan_from [] cs in
    let longer = scan_from (c ∷ line) cs in
    if nat_eq c 10
    then line_of line ∷ next
    else if leb max_scan_token_size (length line + 1)
    then []
    else longer

unfoldable pub scan_lines : List ℕ → List (List ℕ)
unfolding scan_from
scan_lines raw = scan_from [] raw

module _ {ℓ} {A : Type ℓ} where
  unfoldable pub decoded : (List ℕ → Option A) → List (List ℕ) → List A
  decoded decode [] = []
  decoded decode (line ∷ lines) =
      let rest = decoded decode lines in elim (decode line) [ none ↦ rest | some e ↦ e ∷ rest ]

  -- `limit`: all of them for a limit that is not positive or too large.
  abbrev pub newest_first : ℤ → List A → List A
  newest_first (pos zero) es = reverse es
  newest_first (pos (suc n)) es = take (suc n) (reverse es)
  newest_first (negsuc n) es = reverse es

-- ===== src/Host.antt =====
-- The machine that an agent runs on: its text files and the programs that it starts, as
-- internal/wgconfig/wgconfig.go and internal/agent/agent.go use them through packages os and os/exec.
use wireguard_natter_helper.Prelude.{
  eq_refl, arith, ◌≡◌, ◌<>◌, Result, ok, err, Error, ℕ, String, Option, none, some, List, [], ◌∷◌,
  ◌++◌,
}
use wireguard_natter_helper.Map.Lookup.{get?-set}
use wireguard_natter_helper.Map.{Map, get?, set}
use wireguard_natter_helper.Json.{Fields}

pub record Host : Type 0 where
  pub files : Map String
  -- The programs started, oldest first, with their arguments.
  pub ran : List (List String)

-- What the machine answers. A program's output and failure may depend on all that ran before it.
pub record Machine : Type 0 where
  pub answer : List (List String) → List String → String × Error
  pub read_fault : String → Error
  pub write_fault : String → Error
  -- The JSON object at the start of a text; a null gives a nil map.
  pub decode : String → Option (Option Fields)
  -- What a failed write of a text leaves in the file; `none` leaves the file as it was.
  pub torn : String → String → Option String
  pub mkdir_fault : String → Error
  -- Random bytes in hexadecimal, from their number
  pub random : ℕ → String
  -- `runtime.GOOS + "/" + runtime.GOARCH`
  pub platform : String
  -- Nanoseconds since 1970
  pub now : ℕ

-- `exec.Command(words...)`: the output, and the failure
unfoldable pub start : Machine → List String → Host → Host × (String × Error)
start env command h = (record h { ran = h.ran ++ (command ∷ []) }, env.answer h.ran command)

-- `os.ReadFile`
unfoldable pub read_file : Machine → String → Host → Result String
read_file env path h = elim (env.read_fault path) [
  | some e ↦ err e
  | none ↦ elim (get? path h.files) [
    | none ↦ err ("open " <> path <> ": no such file or directory")
    | some text ↦ ok text
  ]
]

-- `os.WriteFile`
unfoldable pub write_file : Machine → String → String → Host → Host × Error
write_file env path text h = elim (env.write_fault path) [
  | none ↦ (record h { files = set path text h.files }, none)
  | some e ↦ (
    elim (env.torn path text) [ none ↦ h | some left ↦ record h { files = set path left h.files } ],
    some e,
  )
]

-- A write that succeeds
pub write_file-written :
    (env : Machine) (path text : String) (h : Host)
    → (write_file env path text h).1 ≡ none
    → get? path (write_file env path text h).0.files ≡ some text
unfolding write_file
write_file-written env path text h e = ground (arith, get?-set path path text h.files, eq_refl path)

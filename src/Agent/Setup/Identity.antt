-- ===== src/Agent/Setup/Identity.antt =====
-- The identity file of internal/agent/agent.go, read again.
use wireguard_natter_helper.Prelude.{
  Bool-cases, ◌<>◌, non_empty, Result, ok, err, Error, with_error, split_if, split_option,
  split_result, String, ◌≡◌, refl, subst, inl, inr, true, false, ◌&&◌, none, some, ◌==◌, eq_iff,
}
use wireguard_natter_helper.Map.{get?}
use wireguard_natter_helper.Strings.{trim_space}
use wireguard_natter_helper.Host.{Host, Machine, write_file, write_file-written}
use wireguard_natter_helper.Agent.State.{LocalState}
use wireguard_natter_helper.Agent.Setup.{
  Coding, filepath_dir, new_identity, create_local_state, load_or_create_local_state,
}
use text.Mathlib.TextLemmas.{append-eq-nil_iff}

-- A file that `loadOrCreateLocalState` reads the state from
record IsUsable (coding : Coding) (path : String) (h : Host) (state : LocalState) : Type 0 where
  raw : String
  stands : get? path h.files ≡ some raw
  is_text : (trim_space raw == "") ≡ false
  parses : coding.parse_state raw ≡ ok state
  complete : (non_empty state.node_id && non_empty state.token) ≡ true

-- The coding reads back what it prints, which is not blank.
pub record Reads (coding : Coding) (state : LocalState) : Type 0 where
  pub parses : coding.parse_state (coding.print_state state) ≡ ok state
  pub is_text : (trim_space (coding.print_state state) == "") ≡ false

abbrev LeavesUsable : Coding → String → Host × Result LocalState → Type 0
LeavesUsable coding path (h, err e) = Unit
LeavesUsable coding path (h, ok state) = IsUsable coding path h state

non_empty-prefix : (s : String) → non_empty ("node-" <> s) ≡ true
non_empty-prefix s = elim (Bool-cases ("node-" <> s == "")) [
  | inr e ↦ rw e refl
  | inl e ↦
      elim (false-ne-true (((eq_iff "node-" "").1 (append-eq-nil_iff.0 ((eq_iff _ "").0 e)).0))) [ ]
]
  where
    false-ne-true : false ≡ true → ⊥
    false-ne-true e = cc

module _ (env : Machine) (coding : Coding) (path : String) where
  complete_identity :
      non_empty (env.random 32) ≡ true
      → (non_empty (new_identity env).node_id && non_empty (new_identity env).token) ≡ true
  complete_identity t = rw (non_empty-prefix (env.random 8), t) refl

  written-Leaves :
      (o : Host × Error)
      → (o.1 ≡ none → get? path o.0.files ≡ some (coding.print_state (new_identity env)))
      → Reads coding (new_identity env)
      → non_empty (env.random 32) ≡ true
      → LeavesUsable coding path (o.0, with_error (new_identity env) o.1)
  written-Leaves (h, none) written r t = record {
    raw = coding.print_state (new_identity env);
    stands = written refl;
    is_text = r.is_text;
    parses = r.parses;
    complete = complete_identity t;
  }
  written-Leaves (h, some x) written r t = tt

  create-Leaves :
      (h : Host)
      → Reads coding (new_identity env)
      → non_empty (env.random 32) ≡ true
      → LeavesUsable coding path (create_local_state env coding path h)
  unfolding create_local_state
  create-Leaves h r t =
      let Q = LeavesUsable coding path in
      let text = coding.print_state (new_identity env) in
      split_option Q (env.mkdir_fault (filepath_dir path))
        (λ _. written-Leaves (write_file env path text h) (write_file-written env path text h) r t)
        (λ _ _. tt)

  load_or_create-Leaves :
      (h : Host)
      → Reads coding (new_identity env)
      → non_empty (env.random 32) ≡ true
      → LeavesUsable coding path (load_or_create_local_state env coding path h)
  unfolding load_or_create_local_state
  load_or_create-Leaves h r t =
      let Q = LeavesUsable coding path in
      let created = create-Leaves h r t in
      split_option Q (env.read_fault path)
        (λ _.
          split_option Q (get? path h.files) (λ _. created)
            (λ raw stands.
              split_if Q (trim_space raw == "") (λ _. created)
                (λ is_text.
                  split_result Q (coding.parse_state raw) (λ _ _. tt)
                    (λ state parses.
                      split_if Q (non_empty state.node_id && non_empty state.token)
                        (λ complete. record {
                          raw = raw;
                          stands = stands;
                          is_text = is_text;
                          parses = parses;
                          complete = complete;
                        })
                        (λ _. created)))))
        (λ _ _. tt)

  IsUsable-loads :
      (h : Host) (state : LocalState)
      → IsUsable coding path h state
      → env.read_fault path ≡ none
      → load_or_create_local_state env coding path h ≡ (h, ok state)
  unfolding load_or_create_local_state
  IsUsable-loads h state u e =
      rw (load_or_create_local_state, e, u.stands, u.is_text, u.parses, u.complete) refl

-- An identity that was loaded or created is loaded again from the file, where the coding reads
-- back a new identity and the file can be read.
pub load_or_create_local_state-again :
    (env later : Machine) (coding : Coding) (path : String) (h h' : Host) (state : LocalState)
    → Reads coding (new_identity env)
    → non_empty (env.random 32) ≡ true
    → load_or_create_local_state env coding path h ≡ (h', ok state)
    → later.read_fault path ≡ none
    → load_or_create_local_state later coding path h' ≡ (h', ok state)
load_or_create_local_state-again env later coding path h h' state r t e f =
    IsUsable-loads later coding path h' state
      (subst (LeavesUsable coding path) e (load_or_create-Leaves env coding path h r t)) f

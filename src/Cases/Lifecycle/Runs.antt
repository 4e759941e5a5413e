-- ===== src/Cases/Lifecycle/Runs.antt =====
-- The open cases for the runs of an evaluation, step by step (internal/case/service.go and
-- memory_store.go).
use opspilot_go_dev_kit.Prelude.{
  ℕ, String, Bool, true, false, none, some, [], ◌∷◌, ◌≡◌, ◌≢◌, inl, inr, refl, sym, ap, ◌∙◌, subst,
  arith, Bool-cases, Option-cases, ◌==◌, eq_iff, not, ◌||◌, eqb,
}
use opspilot_go_dev_kit.Prelude.Clock.{next_uint64}
use opspilot_go_dev_kit.Prelude.Strings.{trim_space}
use opspilot_go_dev_kit.Prelude.Dict.{Dict, find, put, values, find-put}
use opspilot_go_dev_kit.Cases.Types.{Case, Note, CreateInput, status_open, status_closed}
use opspilot_go_dev_kit.Cases.Memory.{
  MemoryStore, new_memory_store, save_or_reuse_open_eval_run_case, first_where, is_open_for_run,
  close, assign, unassign, append_note, set_record, save, new_case_note_id,
}
use opspilot_go_dev_kit.Cases.Memory as Ops
use opspilot_go_dev_kit.Cases.Service.{
  create_case_with_outcome, close_case, assign_case, unassign_case, add_note, created_case,
  fallback_string, new_case_id,
}
use opspilot_go_dev_kit.Cases.Lifecycle.{
  Step, created, closed, assigned, unassigned, noted, Reach, started, then_step, OneOpenPerRun,
}

-- Both are open, of one tenant, and for the same run.
abbrev SameRun : Case → Case → Type 0
SameRun c d =
    (c.status ≡ status_open)
    × (d.status ≡ status_open)
    × (c.tenant_id ≡ d.tenant_id)
    × (c.source_eval_run_id ≡ d.source_eval_run_id)
    × (c.source_eval_run_id ≢ "")

-- A case written under `id` that is not for the run of another open one.
write-OneOpenPerRun :
    (id : String) (c : Case) (s : MemoryStore)
    → ((j : String) (d : Case) → find j s.records ≡ some d → SameRun c d → id ≡ j)
    → OneOpenPerRun s
    → OneOpenPerRun (record s { records = put id c s.records })
write-OneOpenPerRun id c s alone one i j d e fd fe od oe tn rn ne = elim (Bool-cases (id == i)) [
  | inl at_i ↦
      let c_d : c ≡ d = (let x : some c ≡ some d = sym (rw (find-put, at_i)) ∙ fd in cc) in
      elim (Bool-cases (id == j)) [
        | inl at_j ↦ sym ((eq_iff id i).0 at_i) ∙ (eq_iff id j).0 at_j
        | inr off_j ↦
            sym ((eq_iff id i).0 at_i)
            ∙ alone j e (sym (rw (find-put, off_j)) ∙ fe)
                (subst (λ x. SameRun x e) (sym c_d) (od, oe, tn, rn, ne))
      ]
  | inr off_i ↦
      let fd' : find i s.records ≡ some d = sym (rw (find-put, off_i)) ∙ fd in
      elim (Bool-cases (id == j)) [
        | inl at_j ↦
            let c_e : c ≡ e = (let x : some c ≡ some e = sym (rw (find-put, at_j)) ∙ fe in cc) in
            sym (
              alone i d fd'
                (subst (λ x. SameRun x d) (sym c_e) (oe, od, sym tn, sym rn, λ q. ne (rn ∙ q))))
            ∙ (eq_iff id j).0 at_j
        | inr off_j ↦ one i j d e fd' (sym (rw (find-put, off_j)) ∙ fe) od oe tn rn ne
      ]
]

-- A case changed in place, and not opened.
change-OneOpenPerRun :
    (id : String) (c c' : Case) (s : MemoryStore)
    → find id s.records ≡ some c
    → c'.tenant_id ≡ c.tenant_id
    → c'.source_eval_run_id ≡ c.source_eval_run_id
    → (c'.status ≡ status_open → c.status ≡ status_open)
    → OneOpenPerRun s
    → OneOpenPerRun (record s { records = put id c' s.records })
change-OneOpenPerRun id c c' s f t r o one =
    write-OneOpenPerRun id c' s
      (λ j d g same.
        one id j c d f g (o same.0) same.1 (sym t ∙ same.2) (sym r ∙ same.3) (λ q. same.4 (r ∙ q)))
      one

is_open_for_run_complete :
    (c d : Case)
    → d.tenant_id ≡ c.tenant_id
    → d.status ≡ status_open
    → d.source_eval_run_id ≡ c.source_eval_run_id
    → is_open_for_run c d ≡ true
unfolding is_open_for_run
is_open_for_run_complete c d t o r = ground (
  arith,
  eq_iff d.tenant_id c.tenant_id,
  eq_iff d.status status_open,
  eq_iff d.source_eval_run_id c.source_eval_run_id,
)

-- What the loop passed over does not pass its test.
first_where-none :
    (p : Case → Bool) (m : Dict Case) (j : String) (d : Case)
    → first_where p (values m) ≡ none
    → find j m ≡ some d
    → p d ≡ false
unfolding find
first_where-none p [] j d h f = absurd (cc)
first_where-none p ((k, c) ∷ m) j d h f = elim (Bool-cases (p c)) [
  | inl hit ↦ absurd (let x : some c ≡ none = (rw hit at h) in cc)
  | inr miss ↦ elim (Bool-cases (k == j)) [
    | inl here ↦
        (let x : some c ≡ some d = (rw here at f) in let e : c ≡ d = cc in sym (ap p e) ∙ miss)
    | inr there ↦ first_where-none p m j d (rw miss at h) (rw there at f)
  ]
]

saved-OneOpenPerRun :
    (c : Case) (s : MemoryStore)
    → OneOpenPerRun s
    → OneOpenPerRun (save_or_reuse_open_eval_run_case c s).1
unfolding save_or_reuse_open_eval_run_case
saved-OneOpenPerRun c s one =
    elim (Option-cases (first_where (is_open_for_run c) (values s.records))) [
      | inr (d, e) ↦ rw (e, save_or_reuse_open_eval_run_case) one
      | inl e ↦
          rw (e, save_or_reuse_open_eval_run_case)
            (write-OneOpenPerRun c.id c s
              (λ j d f same.
                let no = first_where-none (is_open_for_run c) s.records j d e f in
                let yes = is_open_for_run_complete c d (sym same.2) same.1 (sym same.3) in
                absurd (cc))
              one)
    ]

open_not_closed : ◌≢◌ {A = String} status_closed status_open
open_not_closed h = cc

closed-OneOpenPerRun :
    (id by : String) (now : ℕ) (s : MemoryStore)
    → OneOpenPerRun s
    → OneOpenPerRun (close id by now s).1
unfolding close
closed-OneOpenPerRun id by now s one = elim (Option-cases (find id s.records)) [
  | inl e ↦ rw (e, close) one
  | inr (c, e) ↦ elim (Bool-cases (c.status == status_closed)) [
    | inl t ↦ rw (e, close, t) one
    | inr t ↦
        rw (e, close, t)
          (change-OneOpenPerRun id c (Ops.closed now by c) s e refl refl
            (λ o. absurd (open_not_closed o)) one)
  ]
]

assigned-OneOpenPerRun :
    (id to : String) (now expected : ℕ) (s : MemoryStore)
    → OneOpenPerRun s
    → OneOpenPerRun (assign id to now expected s).1
unfolding assign
assigned-OneOpenPerRun id to now expected s one = elim (Option-cases (find id s.records)) [
  | inl e ↦ rw (e, assign) one
  | inr (c, e) ↦ elim (Bool-cases (c.status == status_closed)) [
    | inl t ↦ rw (e, assign, t) one
    | inr t ↦ elim (Bool-cases (eqb c.updated_at expected)) [
      | inl same ↦
          rw (e, assign, t, same)
            (change-OneOpenPerRun id c (Ops.assigned now to c) s e refl refl (λ o. o) one)
      | inr stale ↦ rw (e, assign, t, stale) one
    ]
  ]
]

unassigned-OneOpenPerRun :
    (id by : String) (now expected : ℕ) (s : MemoryStore)
    → OneOpenPerRun s
    → OneOpenPerRun (unassign id by now expected s).1
unfolding unassign
unassigned-OneOpenPerRun id by now expected s one = elim (Option-cases (find id s.records)) [
  | inl e ↦ rw (e, unassign) one
  | inr (c, e) ↦ elim (Bool-cases (c.status == status_closed)) [
    | inl t ↦ rw (e, unassign, t) one
    | inr t ↦ elim (Bool-cases (c.assigned_to == "")) [
      | inl free ↦ rw (e, unassign, t, free) one
      | inr busy ↦ elim (Bool-cases (eqb c.updated_at expected)) [
        | inl same ↦
            rw (e, unassign, t, busy, same)
              (change-OneOpenPerRun id c (Ops.unassigned now c) s e refl refl (λ o. o) one)
        | inr stale ↦ rw (e, unassign, t, busy, stale) one
      ]
    ]
  ]
]

appended-OneOpenPerRun :
    (note : Note) (s : MemoryStore) → OneOpenPerRun s → OneOpenPerRun (append_note note s).1
unfolding append_note
appended-OneOpenPerRun note s one = elim (Option-cases (find note.case_id s.records)) [
  | inl e ↦ rw (e, append_note) one
  | inr (c, e) ↦
      rw (e, append_note)
        (change-OneOpenPerRun note.case_id c (record c { updated_at = note.created_at }) s e refl
          refl (λ o. o) one)
]

created-OneOpenPerRun :
    (now : ℕ) (input : CreateInput) (s : MemoryStore)
    → OneOpenPerRun s
    → OneOpenPerRun (create_case_with_outcome now input s).1
unfolding create_case_with_outcome save created_case
created-OneOpenPerRun now input s one =
    let n = next_uint64 s.case_id_sequence in
    let c = created_case now (new_case_id now n) input in
    let s₁ : MemoryStore = record s { case_id_sequence = n } in
    elim (Bool-cases (c.source_eval_run_id == "")) [
      | inl e ↦
          rw (e, create_case_with_outcome)
            (write-OneOpenPerRun c.id c s₁ (λ j d f same. absurd (same.4 ((eq_iff _ "").0 e))) one)
      | inr e ↦ rw (e, create_case_with_outcome) (saved-OneOpenPerRun c s₁ one)
    ]

step-OneOpenPerRun : {s s' : MemoryStore} → Step false s s' → OneOpenPerRun s → OneOpenPerRun s'
unfolding close_case assign_case unassign_case add_note
step-OneOpenPerRun {s} (created now input) one = created-OneOpenPerRun now input s one
step-OneOpenPerRun {s} (closed now id by) one =
    closed-OneOpenPerRun id (fallback_string by "operator") now s one
step-OneOpenPerRun {s} (assigned now c to) one =
    assigned-OneOpenPerRun c.id (fallback_string (trim_space to) "operator") now c.updated_at s one
step-OneOpenPerRun {s} (unassigned now c by) one =
    elim (Bool-cases (not (c.status == status_open) || trim_space c.assigned_to == "")) [
      | inl e ↦ rw (e, unassign_case) one
      | inr e ↦
          rw (e, unassign_case)
            (unassigned-OneOpenPerRun c.id (fallback_string (trim_space by) "operator") now
              c.updated_at s one)
    ]
step-OneOpenPerRun {s} (noted now c body author) one = elim (Bool-cases (trim_space body == "")) [
  | inl e ↦ rw (e, add_note) one
  | inr e ↦
      let n = next_uint64 s.case_note_id_sequence in
      rw (e, add_note)
        (appended-OneOpenPerRun
          (record {
            id = new_case_note_id now n;
            tenant_id = c.tenant_id;
            case_id = c.id;
            body = trim_space body;
            created_by = fallback_string (trim_space author) "operator";
            created_at = now;
          })
          (record s { case_note_id_sequence = n }) one)
]

-- As long as no case is reopened, whatever else the callers do: no two open cases of a tenant are for
-- the same run of an evaluation.
pub Reach-OneOpenPerRun : {s : MemoryStore} → Reach false s → OneOpenPerRun s
unfolding new_memory_store find
Reach-OneOpenPerRun started = λ i j c d e f. absurd (cc)
Reach-OneOpenPerRun (then_step r t) = step-OneOpenPerRun t (Reach-OneOpenPerRun r)

-- ===== src/Cases/Lifecycle/Writes.antt =====
-- One write to a well-formed case store (internal/case): a case under its id, a note for a case.
use opspilot_go_dev_kit.Prelude.{
  ℕ, String, some, [], ◌∷◌, ◌++◌, ◌≡◌, ◌≢◌, inl, inr, sym, ◌∙◌, subst, All, All-append, Bool-cases,
  Option-cases, str-ne_of_false, ◌==◌, eq_iff,
}
use opspilot_go_dev_kit.Prelude.Dict.{find, put, find-put, put-KeyedBy}
use opspilot_go_dev_kit.Cases.Types.{Case, Note}
use opspilot_go_dev_kit.Cases.Memory.{MemoryStore, new_memory_store, notes_of}
use opspilot_go_dev_kit.Cases.Service.{fallback_string}
use opspilot_go_dev_kit.Cases.Lifecycle.{IsSettled, IsValid}

operator_given : ◌≢◌ {A = String} "operator" ""
operator_given h = cc

pub fallback_operator : (s : String) → fallback_string s "operator" ≢ ""
unfolding fallback_string
fallback_operator s h = elim (Bool-cases (s == "")) [
  | inl e ↦ operator_given (rw (e, fallback_string) at h)
  | inr e ↦ str-ne_of_false e (rw (e, fallback_string) at h)
]

-- A case in place of the one under its id, or a new one.
pub write-IsValid :
    (c : Case) (s : MemoryStore)
    → IsSettled c
    → IsValid s
    → IsValid (record s { records = put c.id c s.records })
write-IsValid c s h v = record {
  keyed = put-KeyedBy (λ c. c.id) c s.records v.keyed;
  settled = λ id d e. (elim (Bool-cases (c.id == id)) [
    | inl same ↦
        let e' : some c ≡ some d = sym (rw (find-put, same)) ∙ e in
        let c_eq : c ≡ d = cc in subst IsSettled c_eq h
    | inr other ↦ v.settled id d (sym (rw (find-put, other)) ∙ e)
  ]);
  belong = λ id ns e. (
    elim (Bool-cases (c.id == id)) [
      | inl same ↦ (c, rw (find-put, same))
      | inr other ↦ ((v.belong id ns e).0.0, rw (find-put, other) (v.belong id ns e).0.1)
    ],
    (v.belong id ns e).1,
  );
}

-- The same under a key that the case carries.
pub write_key-IsValid :
    (id : String) (c : Case) (s : MemoryStore)
    → c.id ≡ id
    → IsSettled c
    → IsValid s
    → IsValid (record s { records = put id c s.records })
write_key-IsValid id c s e h v =
    subst (λ k. IsValid (record s { records = put k c s.records })) e (write-IsValid c s h v)

notes_of-All :
    (id : String) (s : MemoryStore) → IsValid s → All (λ n. n.case_id ≡ id) (notes_of id s)
notes_of-All id s v = elim (Option-cases (find id s.notes)) [
  | inl e ↦ rw e tt
  | inr (ns, e) ↦ rw e (v.belong id ns e).1
]

-- A note more for a case that exists.
pub note-IsValid :
    (id : String) (c : Case) (note : Note) (k : ℕ) (s : MemoryStore)
    → find id s.records ≡ some c
    → note.case_id ≡ id
    → IsValid s
    → IsValid (record s {
      notes = put id (notes_of id s ++ note ∷ []) s.notes;
      case_note_id_sequence = k;
    })
note-IsValid id c note k s found named v = record {
  keyed = v.keyed;
  settled = v.settled;
  belong = λ j ns e. (elim (Bool-cases (id == j)) [
    | inl same ↦
        let e' : some (notes_of id s ++ note ∷ []) ≡ some ns = sym (rw (find-put, same)) ∙ e in
        let ns_eq : notes_of id s ++ note ∷ [] ≡ ns = cc in
        let j_eq : id ≡ j = (eq_iff id j).0 same in
        subst (λ i. ((c : Case) × (find i s.records ≡ some c)) × All (λ n. n.case_id ≡ i) ns) j_eq
          (
            (c, found),
            subst (All (λ n. n.case_id ≡ id)) ns_eq (
                All-append (λ n. n.case_id ≡ id) (notes_of id s) (note ∷ []) (notes_of-All id s v)
                  (named, tt)),
          )
    | inr other ↦ v.belong j ns (sym (rw (find-put, other)) ∙ e)
  ]);
}

pub counters-IsValid :
    (m n : ℕ) (s : MemoryStore)
    → IsValid s
    → IsValid (record s { case_id_sequence = m; case_note_id_sequence = n })
counters-IsValid m n s v = record { keyed = v.keyed; settled = v.settled; belong = v.belong }

pub new-IsValid : IsValid new_memory_store
unfolding new_memory_store find
new-IsValid = record {
  keyed = (tt, tt);
  settled = λ id c e. absurd (cc);
  belong = λ id ns e. absurd (cc);
}

-- ===== src/Cases/Summaries/Keys.antt =====
-- The summary of one source among those that are asked for (internal/case/memory_store.go).
use opspilot_go_dev_kit.Prelude.{
  String, ◌≡◌, ◌≢◌, inl, inr, refl, sym, ap, ◌∙◌, subst, Bool, true, ◌&&◌, not, none, some, List,
  [], ◌∷◌, arith, if◌then◌else◌, Bool-cases, Option-cases, ok, ◌==◌, eq_iff, eq_refl, eq_of_str_eq,
  or_else, is_some, keep, All, All-imp, All-zip,
}
use opspilot_go_dev_kit.Prelude.Dict.{Dict, find, put, values, find-put, find-put_self}
use opspilot_go_dev_kit.Cases.Types.{Case, FollowUpSummary}
use opspilot_go_dev_kit.Cases.Memory.{MemoryStore, allowed_ids, is_in}
use opspilot_go_dev_kit.Cases.Summaries.{
  summarize, summarize_loop, fill_missing, is_counted, empty_summary, tally_case, set_latest_case,
  any_case, summarize_by_source_eval_case_ids,
}
use opspilot_go_dev_kit.Cases.Summaries.Turns.{key_loop, summarize_loop-at, key_loop_agree}

own_in : (j : String) → j ≢ "" → is_in j (allowed_ids (j ∷ [])) ≡ true
unfolding keep
own_in j n = ground (arith, eq_iff j "", eq_refl j)

module _ {S : Type 0} (start : String → S) (source : Case → String)
    (tally set_latest : Case → S → S) where
  abbrev fill_one : String → Dict S → Dict S
  fill_one id summaries =
      if is_some (find id summaries) then summaries else put id (start id) summaries

  fill_one-at :
      (id j : String) (summaries : Dict S)
      → find j (fill_one id summaries)
        ≡ (if id == j then some (or_else (find j summaries) (start j)) else find j summaries)
  fill_one-at id j summaries = elim (Bool-cases (id == j)) [
    | inr other ↦ elim (Option-cases (find id summaries)) [
      | inl e ↦ rw (e, other, find-put id j (start id) summaries, other)
      | inr (m, e) ↦ rw (e, other)
    ]
    | inl same ↦ rw same (
        subst (λ k. find k (fill_one id summaries) ≡ some (or_else (find k summaries) (start k)))
          (eq_of_str_eq same) (fill_one_self id summaries))
  ]
    where
      fill_one_self :
          (id : String) (summaries : Dict S)
          → find id (fill_one id summaries) ≡ some (or_else (find id summaries) (start id))
      fill_one_self id summaries = elim (Option-cases (find id summaries)) [
        | inl e ↦ rw (e, find-put_self id (start id) summaries)
        | inr (m, e) ↦ rw (e, e)
      ]

  fill_missing-keeps :
      (ids : List String) (j : String) (summaries : Dict S) (m : S)
      → find j summaries ≡ some m
      → find j (fill_missing start source tally set_latest ids summaries) ≡ some m
  unfolding fill_missing
  fill_missing-keeps [] j summaries m h = h
  fill_missing-keeps (id ∷ ids) j summaries m h =
      fill_missing-keeps ids j (fill_one id summaries) m (
        fill_one-at id j summaries
        ∙ elim (Bool-cases (id == j)) [ inl e ↦ rw (e, h) | inr e ↦ rw (e, h) ])

  fill_missing-at :
      (ids : List String) (j : String) (summaries : Dict S)
      → is_in j ids ≡ true
      → find j (fill_missing start source tally set_latest ids summaries)
        ≡ some (or_else (find j summaries) (start j))
  unfolding fill_missing
  fill_missing-at [] j summaries h = absurd cc
  fill_missing-at (id ∷ ids) j summaries h =
      let here = fill_one-at id j summaries in
      elim (Bool-cases (id == j)) [
        | inl e ↦
            fill_missing-keeps ids j (fill_one id summaries) (or_else (find j summaries) (start j))
              (here ∙ rw e)
        | inr e ↦
            fill_missing-at ids j (fill_one id summaries) (rw e at h)
            ∙ ap (λ o. some (or_else o (start j))) {y = find j summaries} (here ∙ rw e)
      ]

  counted_agree :
      (extra : Case → Bool) (tenant_id : String) (ids : List String) (j : String)
      → j ≢ ""
      → is_in j (allowed_ids ids) ≡ true
      → (c : Case) → (source c == j) ≡ true
      → is_counted start source tally set_latest extra tenant_id ids c
        ≡ is_counted start source tally set_latest extra tenant_id (j ∷ []) c
  unfolding is_counted
  counted_agree extra tenant_id ids j n h c e =
      let is_j : source c ≡ j = eq_of_str_eq e in
      ap (λ b. c.tenant_id == tenant_id && not (source c == "") && extra c && b)
        (ap (λ k. is_in k (allowed_ids ids)) is_j
          ∙ (h ∙ (sym (own_in j n) ∙ ap (λ k. is_in k (allowed_ids (j ∷ []))) (sym is_j))))

  -- The summary of one source, where any ids are asked for among which it is.
  summarize-at :
      (extra : Case → Bool) (tenant_id : String) (id : String) (ids : List String) (j : String)
      (s : MemoryStore)
      → j ≢ ""
      → is_in j (allowed_ids (id ∷ ids)) ≡ true
      → find j (summarize start source tally set_latest extra tenant_id (id ∷ ids) s)
        ≡ some (
            or_else
              (key_loop start source tally set_latest
                (is_counted start source tally set_latest extra tenant_id (j ∷ []))
                j
                (values s.records)
                (none, none)).0
              (start j))
  unfolding summarize find
  summarize-at extra tenant_id id ids j s n h =
      let counts = is_counted start source tally set_latest extra tenant_id (id ∷ ids) in
      let own = is_counted start source tally set_latest extra tenant_id (j ∷ []) in
      let rows = values s.records in
      fill_missing-at (allowed_ids (id ∷ ids)) j
        (summarize_loop start source tally set_latest counts rows ([], [])).0 h
      ∙ ap (λ st. some (or_else st.0 (start j)))
          (summarize_loop-at start source tally set_latest counts j rows ([], [])
            ∙ key_loop_agree start source tally set_latest counts own j rows (none, none)
                (counted_agree extra tenant_id (id ∷ ids) j n h))

-- The summary of one evaluation case of a tenant.
abbrev pub eval_case_summary : MemoryStore → String → String → FollowUpSummary
eval_case_summary s tenant_id id =
    let source = λ (c : Case). c.source_eval_case_id in
    or_else
      (key_loop empty_summary source (tally_case source) set_latest_case
        (is_counted empty_summary source (tally_case source) set_latest_case any_case tenant_id
          (id ∷ []))
        id (values s.records) (none, none)).0
      (empty_summary id)

All-allowed : (ids : List String) → All (λ id. id ≢ "") ids → allowed_ids ids ≡ ids
unfolding keep
All-allowed [] h = refl
All-allowed (id ∷ ids) h =
    let kept : not (id == "") ≡ true = ground (arith, eq_iff id "", h.0) in
    rw kept (ap (λ r. id ∷ r) (All-allowed ids h.1))

All-in : (ids : List String) → All (λ id. is_in id ids ≡ true) ids
All-in [] = tt
All-in (id ∷ ids) = (
  rw (eq_refl id),
  All-imp (λ j. is_in j ids ≡ true) (λ j. is_in j (id ∷ ids) ≡ true) ids
      (λ j h. elim (Bool-cases (id == j)) [ inl e ↦ rw e | inr e ↦ rw e h ]) (All-in ids),
)

-- `SummarizeBySourceEvalCaseIDs` answers, and the summary that it gives for an id does not depend on the
-- other ids.
pub eval_case_summaries :
    (s : MemoryStore) (tenant_id : String) (ids : List String)
    → All (λ id. id ≢ "") ids
    → (m : Dict FollowUpSummary) × (summarize_by_source_eval_case_ids tenant_id ids s ≡ ok m)
      × All (λ id. find id m ≡ some (eval_case_summary s tenant_id id)) ids
unfolding summarize_by_source_eval_case_ids
eval_case_summaries s tenant_id [] n = ([], refl, tt)
eval_case_summaries s tenant_id (id ∷ ids) n =
    let source = λ (c : Case). c.source_eval_case_id in
    (
      _,
      refl,
      All-imp (λ j. (j ≢ "") × (is_in j (id ∷ ids) ≡ true)) _ (id ∷ ids)
          (λ j h.
            summarize-at empty_summary source (tally_case source) set_latest_case any_case tenant_id
              id ids j s h.0 (ap (is_in j) (All-allowed (id ∷ ids) n) ∙ h.1))
          (All-zip (λ j. j ≢ "") (λ j. is_in j (id ∷ ids) ≡ true) (id ∷ ids) n (All-in (id ∷ ids))),
    )

-- ===== src/Cases/Summaries/Turns.antt =====
-- The loop of the summaries, seen from one source (internal/case/memory_store.go).
use opspilot_go_dev_kit.Prelude.{
  String, ◌≡◌, inl, inr, refl, sym, ap, ◌∙◌, subst, Bool, true, false, Option, some, List, [], ◌∷◌,
  if◌then◌else◌, Bool-cases, ◌==◌, eq_refl, eq_of_str_eq, or_else,
}
use opspilot_go_dev_kit.Prelude.Dict.{Dict, find, find-put, find-put_self}
use opspilot_go_dev_kit.Cases.Types.{Case}
use opspilot_go_dev_kit.Cases.Memory.{replaces}
use opspilot_go_dev_kit.Cases.Summaries.{summarize_case, summarize_loop}

if_stay {ℓ} : {A : Type ℓ} (b : Bool) {x y : A} → x ≡ y → (if b then x else y) ≡ y
if_stay true e = e
if_stay false e = refl

module _ {S : Type 0} (start : String → S) (source : Case → String)
    (tally set_latest : Case → S → S) where
  -- What a turn of the loop does to the summary and the latest case of one source.
  abbrev pub key_turn : String → Case → Option S × Option Case → Option S × Option Case
  key_turn j item (m, latest) =
      let summary = tally item (or_else m (start j)) in
      if source item == j
      then (if replaces item latest
          then (some (set_latest item summary), some item)
          else (some summary, latest))
      else (m, latest)

  abbrev pub at : String → Dict S × Dict Case → Option S × Option Case
  at j (summaries, latest) = (find j summaries, find j latest)

  summarize_case_same :
      (item : Case) (state : Dict S × Dict Case)
      → at (source item) (summarize_case start source tally set_latest item state)
        ≡ key_turn (source item) item (at (source item) state)
  unfolding summarize_case
  summarize_case_same item (summaries, latest) =
      let k = source item in
      elim (Bool-cases (replaces item (find k latest))) [
        | inl r ↦
            rw (
              summarize_case,
              r,
              find-put_self k _ summaries,
              find-put_self k item latest,
              eq_refl k,
            )
        | inr r ↦ rw (summarize_case, r, find-put_self k _ summaries, eq_refl k)
      ]

  summarize_case-at :
      (j : String) (item : Case) (state : Dict S × Dict Case)
      → at j (summarize_case start source tally set_latest item state)
        ≡ key_turn j item (at j state)
  unfolding summarize_case
  summarize_case-at j item (summaries, latest) = elim (Bool-cases (source item == j)) [
    | inr e ↦ elim (Bool-cases (replaces item (find (source item) latest))) [
      | inl r ↦ rw (
        e,
        summarize_case,
        r,
        find-put (source item) j _ summaries,
        find-put (source item) j item latest,
        e,
      )
      | inr r ↦ rw (e, summarize_case, r, find-put (source item) j _ summaries, e)
    ]
    | inl e ↦
        subst
          (λ k.
            at k (summarize_case start source tally set_latest item (summaries, latest))
            ≡ key_turn k item (at k (summaries, latest)))
          (eq_of_str_eq e) (summarize_case_same item (summaries, latest))
  ]

  -- The loop, seen from one source.
  abbrev pub key_loop :
      (Case → Bool) → String → List Case → Option S × Option Case → Option S × Option Case
  key_loop counts j [] state = state
  key_loop counts j (item ∷ rest) state =
      key_loop counts j rest (if counts item then key_turn j item state else state)

  pub summarize_loop-at :
      (counts : Case → Bool) (j : String) (items : List Case) (state : Dict S × Dict Case)
      → at j (summarize_loop start source tally set_latest counts items state)
        ≡ key_loop counts j items (at j state)
  unfolding summarize_loop
  summarize_loop-at counts j [] state = refl
  summarize_loop-at counts j (item ∷ items) state = elim (Bool-cases (counts item)) [
    | inr e ↦ rw (summarize_loop, e) (summarize_loop-at counts j items state)
    | inl e ↦
        let next = summarize_case start source tally set_latest item state in
        rw (summarize_loop, e)
          (summarize_loop-at counts j items next
            ∙ ap (key_loop counts j items) (summarize_case-at j item state))
  ]

  -- Only the cases of the source matter.
  pub key_loop_agree :
      (p q : Case → Bool) (j : String) (items : List Case) (state : Option S × Option Case)
      → ((c : Case) → (source c == j) ≡ true → p c ≡ q c)
      → key_loop p j items state ≡ key_loop q j items state
  key_loop_agree p q j [] state h = refl
  key_loop_agree p q j (item ∷ items) state h =
      key_loop_agree p q j items (if p item then key_turn j item state else state) h
      ∙ ap (key_loop q j items) (same_turn item)
    where
      same_turn :
          (c : Case)
          → (if p c then key_turn j c state else state)
            ≡ (if q c then key_turn j c state else state)
      same_turn c = elim (Bool-cases (source c == j)) [
        | inl e ↦ ap (λ b. if b then key_turn j c state else state) (h c e)
        | inr e ↦
            let stay : key_turn j c state ≡ state = rw e in
            if_stay (p c) stay ∙ sym (if_stay (q c) stay)
      ]

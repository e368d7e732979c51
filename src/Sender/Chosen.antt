-- ===== src/Sender/Chosen.antt =====
-- `ActualSnapsToSend` and `baseFor` against their descriptions.
use mathlib.Core.Path.{fun_ext}
use mathlib.Core.Option.{or_else}
use zfsbackup.Base.{
  ℕ, suc, ◌≤◌, ◌≡◌, ◌⊎◌, inl, inr, refl, ap, ◌∙◌, sym, Bool, true, false, not, ◌&&◌, ◌||◌, Option,
  none, some, List, [], ◌∷◌, ◌++◌, append_assoc, append-nil, arith, Bytes, if◌then◌else◌, any,
  length, length-append, is_empty, Bool-cases, text_eq,
}
use zfsbackup.Sender.Source.{
  Source, is_snapshot, is_base, is_member, matches_re, Candidate, Collected, nothing, is_newest,
  collect_one, collect, pick, actual_snaps_to_send, base_loop, base_for,
}
use zfsbackup.Sender.Select.{behind_base, marked_guids, is_match, wanted}

module _ (re : Bytes → Bool) (ps : List Bytes) where
  -- The first loop with no base to look for.
  collect_all : List Source → Collected → Collected
  collect_all [] c = c
  collect_all (s ∷ ss) c = collect_all ss (collect_one re ps s c)

  collect-behind_base :
      (base : Source) (after : Bool) (ss : List Source) (c : Collected)
      → collect re ps base after ss c ≡ collect_all (behind_base (is_base base) after ss) c
  unfolding collect collect_all behind_base
  collect-behind_base base after [] c = refl
  collect-behind_base base after (s ∷ ss) c = elim (Bool-cases (not (is_base base s) && after)) [
    | inl e ↦ rw e (collect-behind_base base (is_base base s || after) ss (collect_one re ps s c))
    | inr e ↦ rw e (collect-behind_base base (is_base base s || after) ss c)
  ]

  is_member-guids :
      (x : Bytes) (w : List Source) (c : Collected)
      → is_member (collect_all w c).guids x
        ≡ (is_member (marked_guids ps w) x || is_member c.guids x)
  unfolding collect_all collect_one is_member marked_guids
  is_member-guids x [] c = refl
  is_member-guids x (s ∷ w) c = ground (arith, is_member-guids x w (collect_one re ps s c))

  cands : List Source → List Candidate
  cands [] = []
  cands (s ∷ w) =
      let rest = cands w in
      if is_snapshot s then record { snap = s; matches = matches_re re s } ∷ rest else rest

  newest_of : ℕ → List Source → Option ℕ → Option ℕ
  newest_of k [] old = old
  newest_of k (s ∷ w) old =
      newest_of (if is_snapshot s then suc k else k) w (if is_match re s then some k else old)

  candidates-cands :
      (w : List Source) (c : Collected) → (collect_all w c).candidates ≡ c.candidates ++ cands w
  unfolding collect_all collect_one cands
  candidates-cands [] c = sym (append-nil c.candidates)
  candidates-cands (s ∷ w) c = ground (
    arith,
    candidates-cands w (collect_one re ps s c),
    append_assoc c.candidates (record { snap = s; matches = matches_re re s } ∷ []) (cands w),
  )

  newest-newest_of :
      (w : List Source) (c : Collected)
      → (collect_all w c).newest ≡ newest_of (length c.candidates) w c.newest
  unfolding collect_all collect_one newest_of is_match
  newest-newest_of [] c = refl
  newest-newest_of (s ∷ w) c = ground (
    arith,
    newest-newest_of w (collect_one re ps s c),
    length-append c.candidates (record { snap = s; matches = matches_re re s } ∷ []),
  )

  newest_of_cases :
      (k : ℕ) (w : List Source) (old : Option ℕ)
      → (any (is_match re) w ≡ false) × (newest_of k w old ≡ old)
        ⊎ ((j : ℕ) × (any (is_match re) w ≡ true) × (newest_of k w old ≡ some j) × (k ≤ j))
  unfolding newest_of
  newest_of_cases k [] old = inl (refl, refl)
  newest_of_cases k (s ∷ w) old =
      let k' = if is_snapshot s then suc k else k in
      elim (newest_of_cases k' w (if is_match re s then some k else old)) [
        | inl (absent, e) ↦ elim (Bool-cases (is_match re s)) [
          | inl m ↦ inr (k, ground arith, ground arith, omega arith)
          | inr m ↦ inl (ground arith, ground arith)
        ]
        | inr (j, present, e, h) ↦ inr (j, ground arith, e, ground arith)
      ]

  -- The index test of the second loop holds at the last match.
  is_newest-last :
      (k : ℕ) (w : List Source)
      → is_newest k (newest_of (suc k) w (some k)) ≡ not (any (is_match re) w)
  unfolding is_newest
  is_newest-last k w = ground (arith, newest_of_cases (suc k) w (some k))

  pick-wanted :
      (all : Bool) (guids : List Bytes) (w : List Source) (k : ℕ) (old : Option ℕ)
      → pick re ps all guids (newest_of k w old) k (cands w) ≡ wanted re all (is_member guids) w
  unfolding pick cands newest_of wanted is_match
  pick-wanted all guids [] k old = refl
  pick-wanted all guids (s ∷ w) k old = elim (Bool-cases (is_snapshot s)) [
    | inr e ↦ ground (arith, pick-wanted all guids w k old)
    | inl e ↦ elim (Bool-cases (matches_re re s)) [
      | inl m ↦ ground (arith, is_newest-last k w, pick-wanted all guids w (suc k) (some k))
      | inr m ↦ ground (arith, pick-wanted all guids w (suc k) old)
    ]
  ]

  guids_member :
      (w : List Source) (x : Bytes)
      → is_member (collect_all w nothing).guids x ≡ is_member (marked_guids ps w) x
  unfolding is_member
  guids_member w x = ground (arith, is_member-guids x w nothing)

  -- The snapshots to send are those behind the base that a synchronised placeholder marks, with the
  -- last one that matches the regexp, or with all that match if intermediate ones are wanted.
  pub actual_snaps_to_send-wanted :
      (all : Bool) (sources : List Source) (base : Source)
      → let w = behind_base (is_base base) (is_empty base.guid) sources in
        actual_snaps_to_send re ps all sources base
        ≡ wanted re all (is_member (marked_guids ps w)) w
  unfolding actual_snaps_to_send
  actual_snaps_to_send-wanted all sources base =
      let w = behind_base (is_base base) (is_empty base.guid) sources in
      let c = collect_all w nothing in
      rw
        (
          collect-behind_base base (is_empty base.guid) sources nothing,
          candidates-cands w nothing,
          newest-newest_of w nothing,
        )
        (pick-wanted all c.guids w 0 none
          ∙ ap (λ (m : Bytes → Bool). wanted re all m w) (fun_ext (guids_member w)))

-- The first source that passes a test.
abbrev pub first : (Source → Bool) → List Source → Option Source
first p [] = none
first p (s ∷ ss) = let rest = first p ss in if p s then some s else rest

base_loop-first :
    (guid : Bytes) (ss : List Source) (b : Option Source)
    → base_loop guid ss b
      ≡ or_else
          (first (λ s. text_eq s.guid guid && is_snapshot s) ss)
          (or_else b (first (λ s. text_eq s.guid guid) ss))
unfolding base_loop or_else
base_loop-first guid [] b = ground arith
base_loop-first guid (s ∷ ss) b =
    ground (arith, base_loop-first guid ss b, base_loop-first guid ss (some s))

-- The base for a GUID is the first snapshot that has it, and where no snapshot has it the first
-- bookmark that does.
pub base_for-first :
    (sources : List Source) (guid : Bytes)
    → base_for sources guid
      ≡ or_else
          (first (λ s. text_eq s.guid guid && is_snapshot s) sources)
          (first (λ s. text_eq s.guid guid) sources)
unfolding base_for or_else
base_for-first sources guid = base_loop-first guid sources none

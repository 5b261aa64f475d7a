-- ===== src/Pitr/Timeline/Agreement.antt =====
-- The plan of the timeline against the preview.
use kuzu_event_bus.Prelude.{
  ℕ, ◌≤◌, ◌≡◌, refl, sym, ap, subst, ◌∙◌, Bool, true, false, ◌&&◌, Option, none, some, List, [],
  ◌∷◌, keep, arith, inl, inr, Bool-cases, Option-cases, leb, All, Elem, if◌then◌else◌,
}
use kuzu_event_bus.Pitr.{
  Snapshot, Timed, WalObject, files_in_range, sort_asc, preview_wal_files, nearest_snapshot_before,
  candidates,
}
use kuzu_event_bus.Pitr.Nearest.{
  IsNearest, IsEligible, candidates-IsEligible, nearest_snapshot_before-IsNearest,
}
use kuzu_event_bus.Pitr.Timeline.{TimelineCall, in_span, snapshots_in}
use kuzu_event_bus.Pitr.Timeline.Listing.{
  Plan, ok, Timeline, between, plan_from, wal_files_in, timeline_of, with_plan, planned,
  listed_objects, started, end_or, start_or, list_database_pitr,
}

-- Taking a range out of a wider one.
keep-files_in_range :
    (named : WalObject → Bool) (start end time target : ℕ) (os : List WalObject)
    → start ≤ time
    → target ≤ end
    → keep (between time target) (files_in_range named start end os)
      ≡ files_in_range named time target os
unfolding files_in_range
keep-files_in_range named start end time target [] low high = refl
keep-files_in_range named start end time target (o ∷ os) low high =
    let rest = keep-files_in_range named start end time target os low high in
    elim (Option-cases o.second) [
      | inl e ↦ ground (arith, rest)
      | inr (second, e) ↦ ground (arith, rest)
    ]

Elem-keep :
    {A : Type 0} (p : A → Bool) (xs : List A) (a : A)
    → Elem a (keep p xs)
    → Elem a xs × (p a ≡ true)
Elem-keep p [] a h = elim h [ ]
Elem-keep p (x ∷ xs) a h = kept (p x) refl h (λ m. Elem-keep p xs a m)
  where
    kept :
        (b : Bool)
        → p x ≡ b
        → Elem a (if b then x ∷ keep p xs else keep p xs)
        → (Elem a (keep p xs) → Elem a xs × (p a ≡ true))
        → Elem a (x ∷ xs) × (p a ≡ true)
    kept true e (inl same) rest = (inl same, ap p (sym same) ∙ e)
    kept true e (inr m) rest = (inr (rest m).0, (rest m).1)
    kept false e m rest = (inr (rest m).0, (rest m).1)

keep-Elem :
    {A : Type 0} (p : A → Bool) (xs : List A) (a : A) → Elem a xs → p a ≡ true → Elem a (keep p xs)
keep-Elem p [] a h e = elim h [ ]
keep-Elem p (x ∷ xs) a (inl same) e = simp (ap p same ∙ e) (inl same)
keep-Elem p (x ∷ xs) a (inr m) e = elim (Bool-cases (p x)) [
  | inl t ↦ simp t (inr (keep-Elem p xs a m e))
  | inr f ↦ simp f (keep-Elem p xs a m e)
]

each_below :
    (n : ℕ) (xs : List Timed)
    → ((x : Timed) → Elem x xs → x.0 ≤ n)
    → All (λ (x : Timed). x.0 ≤ n) xs
each_below n [] h = tt
each_below n (x ∷ xs) h = (h x (inl refl), each_below n xs (λ y m. h y (inr m)))

-- What the timeline's plan starts from.
nearest_of_range :
    (start end target : ℕ) (ss : List Snapshot) (time : ℕ) (s : Snapshot)
    → target ≤ end
    → nearest_snapshot_before target (snapshots_in start end ss) ≡ some (time, s)
    → (start ≤ time)
      × (s.created_at ≡ some time)
      × (time ≤ target)
      × Elem s ss
      × All (λ (x : Timed). x.0 ≤ time) (candidates target ss)
unfolding snapshots_in
nearest_of_range start end target ss time s covers h =
    let nearest : IsNearest target (snapshots_in start end ss) (some (time, s)) =
      subst (IsNearest target (snapshots_in start end ss)) h
        (nearest_snapshot_before-IsNearest target (snapshots_in start end ss)) in
    let (eligible, most) = nearest in
    let (member, dated, before) = eligible in
    let (elem, inside) = Elem-keep (λ (x : Snapshot). in_span start end x.created_at) ss s member in
    let low = start_le time (ap (in_span start end) (sym dated) ∙ inside) in
    (
      low,
      dated,
      before,
      elem,
      each_below time (candidates target ss)
          (λ x m. below low most x (candidates-IsEligible target ss x m)),
    )
  where
    start_le : (t : ℕ) → in_span start end (some t) ≡ true → start ≤ t
    start_le t e = ground arith

    below :
        start ≤ time
        → ((x : Timed) → IsEligible target (snapshots_in start end ss) x → x.0 ≤ time)
        → (x : Timed) → IsEligible target ss x
        → x.0 ≤ time
    below low most x (member, dated, before) = elim (Bool-cases (leb start x.0)) [
      | inl e ↦ most x (
        keep-Elem (λ (y : Snapshot). in_span start end y.created_at) ss x.1 member
            (ap (in_span start end) dated ∙ ground (arith, e)),
        dated,
        before,
      )
      | inr e ↦ ground (arith, e)
    ]

module _ (c : TimelineCall) (objects : List WalObject) where
  abbrev Agrees : Timeline → Plan → Type 0
  Agrees t plan =
      (time : ℕ) × (plan.snapshot.created_at ≡ some time)
      × (time ≤ plan.target_timestamp)
      × Elem plan.snapshot c.all_snapshots
      × All (λ (x : Timed). x.0 ≤ time) (candidates plan.target_timestamp c.all_snapshots)
      × (sort_asc plan.wal_files ≡ preview_wal_files time plan.target_timestamp objects)

  plan_from-Agrees :
      (start end target time : ℕ) (s : Snapshot) (t : Timeline)
      → target ≤ end
      → nearest_snapshot_before target (snapshots_in start end c.all_snapshots) ≡ some (time, s)
      → Agrees t (plan_from target (wal_files_in start end objects) (time, s))
  unfolding wal_files_in preview_wal_files
  plan_from-Agrees start end target time s t covers near =
      let (low, dated, before, elem, most) =
        nearest_of_range start end target c.all_snapshots time s covers near in
      (
        time,
        dated,
        before,
        elem,
        most,
        ap sort_asc (
            keep-files_in_range (λ o. o.named_wal && o.named_log) start end time target objects low
              covers),
      )

  with_plan-Agrees :
      (start end target : ℕ) (o : Option Timed) (t : Timeline) (plan : Plan)
      → nearest_snapshot_before target (snapshots_in start end c.all_snapshots) ≡ o
      → with_plan c start end (wal_files_in start end objects) target o ≡ ok t
      → t.plan ≡ some plan
      → plan.target_timestamp ≤ t.end
      → Agrees t plan
  with_plan-Agrees start end target none t plan near h p covers = cc
  with_plan-Agrees start end target (some (time, s)) t plan near h p covers =
      let made = plan_from target (wal_files_in start end objects) (time, s) in
      let is_t : timeline_of c start end (wal_files_in start end objects) (some made) ≡ t = cc in
      let is_plan : some made ≡ some plan = ap (λ (x : Timeline). x.plan) is_t ∙ p in
      let same : made ≡ plan = cc in
      let target_same : target ≡ plan.target_timestamp =
        ap (λ (x : Plan). x.target_timestamp) same in
      let end_same : end ≡ t.end = ap (λ (x : Timeline). x.end) is_t in
      subst (Agrees t) same (
        plan_from-Agrees start end target time s t (omega (arith, covers, target_same, end_same))
          near)

  planned-Agrees :
      (start end : ℕ) (o : Option ℕ) (t : Timeline) (plan : Plan)
      → planned c start end (wal_files_in start end objects) o ≡ ok t
      → t.plan ≡ some plan
      → plan.target_timestamp ≤ t.end
      → Agrees t plan
  planned-Agrees start end none t plan h p covers =
      let is_t : timeline_of c start end (wal_files_in start end objects) none ≡ t = cc in
      let clash : none ≡ some plan = ap (λ (x : Timeline). x.plan) is_t ∙ p in cc
  planned-Agrees start end (some target) t plan h p covers =
      with_plan-Agrees start end target
        (nearest_snapshot_before target (snapshots_in start end c.all_snapshots)) t plan refl h p
        covers

  started-Agrees :
      (o : Option ℕ) (t : Timeline) (plan : Plan)
      → c.list_objects ≡ some objects
      → started c o ≡ ok t
      → t.plan ≡ some plan
      → plan.target_timestamp ≤ t.end
      → Agrees t plan
  started-Agrees none t plan listed h p covers = cc
  started-Agrees (some start) t plan listed h p covers =
      planned-Agrees start (end_or c.end c.now) c.target_timestamp t plan
        (ap (listed_objects c start (end_or c.end c.now)) (sym listed) ∙ h) p covers

  -- Where the timeline reaches to the target, its plan starts from a snapshot of the database that
  -- is dated at or before the target and is a latest one of those, and lists, up to their order, the WAL files that the preview
  -- replays from that snapshot.
  pub plan-agrees :
      (t : Timeline) (plan : Plan)
      → c.list_objects ≡ some objects
      → list_database_pitr c ≡ ok t
      → t.plan ≡ some plan
      → plan.target_timestamp ≤ t.end
      → (time : ℕ) × (plan.snapshot.created_at ≡ some time)
        × (time ≤ plan.target_timestamp)
        × Elem plan.snapshot c.all_snapshots
        × All (λ (x : Timed). x.0 ≤ time) (candidates plan.target_timestamp c.all_snapshots)
        × (sort_asc plan.wal_files ≡ preview_wal_files time plan.target_timestamp objects)
  unfolding list_database_pitr
  plan-agrees t plan listed h p covers = elim (Bool-cases c.allowed) [
    | inl e ↦
        started-Agrees (start_or c.start c.year_ago) t plan listed (ground (arith, e, h)) p covers
    | inr e ↦ absurd (ground (arith, e, h))
  ]

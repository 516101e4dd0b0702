-- ===== src/Observe/Stats/Tallies.antt =====
-- The counts of matrix_stats.rs add up, and its rates are rates.
use Prim.Native.Nat.{Ordering, lt, eq, gt}
use dynet.Base.{
  ℕ, ◌+◌, ◌*◌, ◌^◌, ◌≤◌, ◌<◌, ◌≡◌, refl, inl, inr, List, [], ◌∷◌, length, some, All, All-map,
  Bool-cases, Option-cases, arith, subst,
}
use dynet.Base.Order.{Ord, cmp, is_eq}
use dynet.Base.OrdMap.{OrdMap, get, insert}
use dynet.Base.Opt.{get_or}
use dynet.Base.Words.{add_u64}
use dynet.Observe.Session.{TrafficSession}
use dynet.Observe.Stats.{
  MatrixNodeStatsAccumulator, empty_stats, effective_error_millis, Standing, failed, succeeded,
  active, standing, bump, is_failed, is_succeeded, is_active, add_error, record_session, tally,
  tally_all,
}

-- So few records that no count of thousandths wraps around.
abbrev pub record_limit : ℕ
record_limit = 2 ^ 53

pub record IsTally (n : ℕ) (a : MatrixNodeStatsAccumulator) : Type 0 where
  pub counted : a.session_count ≡ n
  pub parted : a.success_count + a.error_count + a.active_session_count ≡ n
  pub weighed : a.effective_error_millis ≤ 1000 * a.error_count

empty_stats-IsTally : IsTally 0 empty_stats
empty_stats-IsTally = record { counted = refl; parted = refl; weighed = omega arith }

effective_error_millis_le : (s : TrafficSession) → effective_error_millis s ≤ 1000
unfolding effective_error_millis
effective_error_millis_le s = ground arith

standing-parts :
    (st : Standing) (n s e a : ℕ)
    → n + 1 < record_limit
    → s + e + a ≡ n
    → bump (is_succeeded st) s + bump (is_failed st) e + bump (is_active st) a ≡ n + 1
unfolding add_u64
standing-parts failed n s e a h k = omega arith
standing-parts succeeded n s e a h k = omega arith
standing-parts active n s e a h k = omega arith

standing-weight :
    (st : Standing) (error m e : ℕ)
    → error + 1 < record_limit
    → m ≤ 1000
    → e ≤ 1000 * error
    → add_error st m e ≤ 1000 * bump (is_failed st) error
unfolding add_u64
standing-weight failed error m e h k l = omega arith
standing-weight succeeded error m e h k l = l
standing-weight active error m e h k l = l

record_session-IsTally :
    (n : ℕ) (a : MatrixNodeStatsAccumulator) (s : TrafficSession)
    → n + 1 < record_limit
    → IsTally n a
    → IsTally (n + 1) (record_session a s)
unfolding record_session add_u64
record_session-IsTally n a s h t = record {
  counted = omega (arith, t.counted);
  parted =
      standing-parts (standing s) n a.success_count a.error_count a.active_session_count h t.parted;
  weighed =
      standing-weight (standing s) a.error_count (effective_error_millis s) a.effective_error_millis
        (omega (arith, t.parted)) (effective_error_millis_le s) t.weighed;
}

-- An accumulator of between one and so many records.
pub record IsRow (most : ℕ) (a : MatrixNodeStatsAccumulator) : Type 0 where
  pub records : ℕ
  pub some_record : 0 < records
  pub few : records ≤ most
  pub tallied : IsTally records a

module _ {K : Type 0} ⦃o : Ord K⦄ (P : MatrixNodeStatsAccumulator → Type 0) where
  All-insert :
      (k : K) (v : MatrixNodeStatsAccumulator) (m : OrdMap K MatrixNodeStatsAccumulator)
      → P v
      → All (λ e. P e.1) m
      → All (λ e. P e.1) (insert k v m)
  unfolding insert
  All-insert k v [] p h = (p, tt)
  All-insert k v ((j, w) ∷ m) p h = at (All-insert k v m p h.1) (cmp k j)
    where
      at :
          All (λ e. P e.1) (insert k v m)
          → (r : Ordering)
          → All
              (λ e. P e.1)
              (elim r [ lt ↦ (k, v) ∷ (j, w) ∷ m | eq ↦ (k, v) ∷ m | gt ↦ (j, w) ∷ insert k v m ])
      at rest lt = (p, h)
      at rest eq = (p, h.1)
      at rest gt = (h.0, rest)

  get-All :
      (k : K) (v : MatrixNodeStatsAccumulator) (m : OrdMap K MatrixNodeStatsAccumulator)
      → get k m ≡ some v
      → All (λ e. P e.1) m
      → P v
  unfolding get
  get-All k v [] e h = cc
  get-All k v ((j, w) ∷ m) e h = elim (Bool-cases (is_eq (cmp k j))) [
    | inl b ↦ let same : w ≡ v = cc (rw b at e) in subst P same h.0
    | inr b ↦ get-All k v m (rw b at e) h.1
  ]

module _ {K : Type 0} where
  -- How often a key is counted for.
  unfoldable pub total_keys : (TrafficSession → List K) → List TrafficSession → ℕ
  total_keys keys [] = 0
  total_keys keys (session ∷ sessions) = length (keys session) + total_keys keys sessions

module _ {K : Type 0} ⦃o : Ord K⦄ where
  abbrev pub Rows : ℕ → OrdMap K MatrixNodeStatsAccumulator → Type 0
  Rows most stats = All (λ e. IsRow most e.1) stats

  Rows-le :
      (a b : ℕ) (stats : OrdMap K MatrixNodeStatsAccumulator) → a ≤ b → Rows a stats → Rows b stats
  Rows-le a b stats h rows =
      All-map
        (λ e r. record {
          records = r.records;
          some_record = r.some_record;
          few = omega (arith, r.few, h);
          tallied = r.tallied;
        })
        stats rows

  entry-IsRow :
      (most : ℕ) (key : K) (session : TrafficSession) (stats : OrdMap K MatrixNodeStatsAccumulator)
      → most + 1 < record_limit
      → Rows most stats
      → IsRow (most + 1) (record_session (get_or (get key stats) empty_stats) session)
  entry-IsRow most key session stats h rows = elim (Option-cases (get key stats)) [
    | inl e ↦ rw e (record {
      records = 1;
      some_record = omega arith;
      few = omega arith;
      tallied = record_session-IsTally 0 empty_stats session (omega arith) empty_stats-IsTally;
    })
    | inr (a, e) ↦
        let r = get-All (IsRow most) key a stats e rows in
        rw e (record {
          records = r.records + 1;
          some_record = omega arith;
          few = omega (arith, r.few);
          tallied = record_session-IsTally r.records a session (omega (arith, r.few, h)) r.tallied;
        })
  ]

  tally-Rows :
      (keys : List K) (session : TrafficSession) (most : ℕ)
      (stats : OrdMap K MatrixNodeStatsAccumulator)
      → most + length keys < record_limit
      → Rows most stats
      → Rows (most + length keys) (tally stats keys session)
  unfolding tally
  tally-Rows [] session most stats h rows = Rows-le most (most + 0) stats (omega arith) rows
  tally-Rows (key ∷ keys) session most stats h rows =
      let new = entry-IsRow most key session stats (omega arith) rows in
      let all =
        All-insert (IsRow (most + 1)) key _ stats new
          (Rows-le most (most + 1) stats (omega arith) rows) in
      Rows-le (most + 1 + length keys) (most + length (key ∷ keys)) _ (omega arith)
        (tally-Rows keys session (most + 1) _ (omega (arith, h)) all)

  pub tally_all-Rows :
      (keys : TrafficSession → List K) (sessions : List TrafficSession) (most : ℕ)
      (stats : OrdMap K MatrixNodeStatsAccumulator)
      → most + total_keys keys sessions < record_limit
      → Rows most stats
      → Rows (most + total_keys keys sessions) (tally_all keys stats sessions)
  unfolding tally_all total_keys
  tally_all-Rows keys [] most stats h rows = Rows-le most (most + 0) stats (omega arith) rows
  tally_all-Rows keys (session ∷ sessions) most stats h rows =
      Rows-le (most + length (keys session) + total_keys keys sessions)
        (most + (length (keys session) + total_keys keys sessions)) _ (omega arith)
        (tally_all-Rows keys sessions (most + length (keys session)) _ (omega (arith, h))
          (tally-Rows (keys session) session most stats (omega (arith, h)) rows))

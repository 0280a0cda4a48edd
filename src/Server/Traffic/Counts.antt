-- ===== src/Server/Traffic/Counts.antt =====
-- The server's counters against a stream's own, over any number of ticks.
use espmic.Common.{
  ℕ, ◌+◌, ◌≡◌, ◌<◌, ◌∙◌, String, String_discrete, List, [], ◌∷◌, arith, ap, subst, sym, All,
}
use espmic.Common.GoMap
use espmic.Rtp.Jitter.{Float64, Stats, u64}
use espmic.Server.State.{Server}
use espmic.Server.Traffic.{
  delta, last_of, number_of, push_stream_metrics, add_counts, estimate, show_bitrate,
}

abbrev pub IsU64 : ℕ → Type 0
IsU64 n = n < 18446744073709551616

-- Counters of type uint64.
pub record Counters {F : Type 0} (st : Stats F) : Type 0 where
  pub lost_ok : IsU64 st.lost
  pub duplicate_ok : IsU64 st.duplicate
  pub reordered_ok : IsU64 st.reordered
  pub late_ok : IsU64 st.late

telescope :
    (s t u first next last : ℕ) {next' : ℕ}
    → IsU64 first
    → IsU64 next
    → next' ≡ next
    → t ≡ u64 (s + delta next first)
    → u64 u ≡ u64 (t + delta last next')
    → u64 u ≡ u64 (s + delta last first)
telescope s t u first next last hf hn e ht hu = omega (arith, hf, hn, e, ht, hu)

module _ {F : Type 0} (fl : Float64 F) where
  -- The statistics of one stream at a run of ticks.
  abbrev pub push_each : Server F → String → List (Stats F × ℕ) → Server F
  push_each s id [] = s
  push_each s id ((st, now) ∷ rest) = push_each (push_stream_metrics fl s id st now) id rest

  -- What a counter of the server has become, given the stream's counter then and now.
  abbrev pub Grown : Server F → Server F → (Stats F → ℕ) → (Server F → ℕ) → String → Type 0
  Grown s t field total id =
      u64 (total t)
      ≡ u64 (
          total s + delta (field (last_of fl t.last_stats id)) (field (last_of fl s.last_stats id)))

  estimate-keeps :
      (s : Server F) (id : String) (st : Stats F) (now : ℕ)
      → ((estimate fl s id st now).metrics ≡ s.metrics)
        × ((estimate fl s id st now).last_stats ≡ s.last_stats)
  unfolding estimate
  estimate-keeps s id st now = ground arith

  show_bitrate-keeps :
      (s : Server F) (id : String) (last now : ℕ)
      → let t = show_bitrate fl s id last now in
        (t.metrics.rtp_packets_lost ≡ s.metrics.rtp_packets_lost)
        × (t.metrics.rtp_packets_duplicate ≡ s.metrics.rtp_packets_duplicate)
        × (t.metrics.rtp_packets_reordered ≡ s.metrics.rtp_packets_reordered)
        × (t.metrics.rtp_packets_late ≡ s.metrics.rtp_packets_late)
  unfolding show_bitrate
  show_bitrate-keeps s id last now = ground arith

  step_counts :
      (s : Server F) (id : String) (st : Stats F) (now : ℕ)
      → let t = push_stream_metrics fl s id st now in
        (last_of fl t.last_stats id ≡ st)
        × (t.metrics.rtp_packets_lost
            ≡ u64 (s.metrics.rtp_packets_lost + delta st.lost (last_of fl s.last_stats id).lost))
        × (t.metrics.rtp_packets_duplicate
            ≡ u64 (
                s.metrics.rtp_packets_duplicate
                + delta st.duplicate (last_of fl s.last_stats id).duplicate))
        × (t.metrics.rtp_packets_reordered
            ≡ u64 (
                s.metrics.rtp_packets_reordered
                + delta st.reordered (last_of fl s.last_stats id).reordered))
        × (t.metrics.rtp_packets_late
            ≡ u64 (s.metrics.rtp_packets_late + delta st.late (last_of fl s.last_stats id).late))
  unfolding push_stream_metrics add_counts
  step_counts s id st now =
      let last_time = number_of fl s.last_bitrate_t id in
      let s1 = record s { metrics = add_counts fl s.metrics (last_of fl s.last_stats id) st } in
      let e = estimate fl s1 id st now in
      let t = show_bitrate fl e id last_time now in
      let (m, ls) = estimate-keeps s1 id st now in
      let (a, b, c, d) = show_bitrate-keeps e id last_time now in
      (
        ground (arith, GoMap.lookup-insert String_discrete id id st t.last_stats),
        a ∙ ap (λ x. x.rtp_packets_lost) m,
        b ∙ ap (λ x. x.rtp_packets_duplicate) m,
        c ∙ ap (λ x. x.rtp_packets_reordered) m,
        d ∙ ap (λ x. x.rtp_packets_late) m,
      )

  -- However often a stream's statistics are pushed, the server's counters of lost, duplicate,
  -- reordered and late packets have grown, modulo 2^64, by exactly what the stream's own have grown
  -- since the last push before.
  pub push_each-Grown :
      (s : Server F) (id : String) (stats : List (Stats F × ℕ))
      → Counters (last_of fl s.last_stats id)
      → All (λ (e : Stats F × ℕ). Counters e.0) stats
      → let t = push_each s id stats in
        Grown s t (λ st. st.lost) (λ x. x.metrics.rtp_packets_lost) id
        × Grown s t (λ st. st.duplicate) (λ x. x.metrics.rtp_packets_duplicate) id
        × Grown s t (λ st. st.reordered) (λ x. x.metrics.rtp_packets_reordered) id
        × Grown s t (λ st. st.late) (λ x. x.metrics.rtp_packets_late) id
  push_each-Grown s id [] c all = (
    omega (arith, c.lost_ok),
    omega (arith, c.duplicate_ok),
    omega (arith, c.reordered_ok),
    omega (arith, c.late_ok),
  )
  push_each-Grown s id ((st, now) ∷ rest) c (cst, all) =
      let t = push_stream_metrics fl s id st now in
      let (l, p, q, r, w) = step_counts s id st now in
      let (a, b, d, e) = push_each-Grown t id rest (subst Counters (sym l) cst) all in
      let u = push_each t id rest in
      let before = last_of fl s.last_stats id in
      let after = last_of fl u.last_stats id in
      (
        telescope s.metrics.rtp_packets_lost t.metrics.rtp_packets_lost u.metrics.rtp_packets_lost
            before.lost st.lost after.lost c.lost_ok cst.lost_ok (ap (λ x. x.lost) l) p a,
        telescope s.metrics.rtp_packets_duplicate t.metrics.rtp_packets_duplicate
            u.metrics.rtp_packets_duplicate before.duplicate st.duplicate after.duplicate
            c.duplicate_ok cst.duplicate_ok (ap (λ x. x.duplicate) l) q b,
        telescope s.metrics.rtp_packets_reordered t.metrics.rtp_packets_reordered
            u.metrics.rtp_packets_reordered before.reordered st.reordered after.reordered
            c.reordered_ok cst.reordered_ok (ap (λ x. x.reordered) l) r d,
        telescope s.metrics.rtp_packets_late t.metrics.rtp_packets_late u.metrics.rtp_packets_late
            before.late st.late after.late c.late_ok cst.late_ok (ap (λ x. x.late) l) w e,
      )

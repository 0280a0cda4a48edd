-- ===== src/Rtp/Jitter.antt =====
-- server/internal/rtp/jitter.go: the jitter buffer.
--
-- Instants are nanoseconds since the epoch and the playout delay is not negative, as
-- `Receiver.Bind` makes it. The lock of every method is held for the whole method, so a method is
-- one step. Floating-point arithmetic is the parameter `Float64`.
pub mod Invariant
pub mod Run
pub mod Account
pub mod Nearest
pub mod Order
pub mod Playout
use espmic.Common.{
  ℕ, zero, suc, ◌+◌, ◌-◌, ◌*◌, ◌%◌, ◌^◌, ◌≡◌, List, [], ◌∷◌, ◌++◌, Option, none, some, Bool, true,
  false, not, arith, leb, ltb, ◌==◌, if◌then◌else◌, length, min, ℕ_discrete, refl,
}
use espmic.Common.GoMap
use espmic.Common.Int.{ℤ, pos, negsuc, ◌-ℤ◌, ltb_ℤ}
use espmic.Rtp.Seq.{u16, seq_before, seq_distance, seq_next}
use espmic.Rtp.Packet.{Packet}

abbrev pub clock_rate : ℕ
clock_rate = 48000

abbrev pub max_loss_hook_calls : ℕ
max_loss_hook_calls = 1024

-- `float64` and its operators.
pub record Float64 (F : Type 0) : Type 0 where
  pub of_int : ℤ → F
  pub to_int64 : F → ℤ
  pub add : F → F → F
  pub sub : F → F → F
  pub mul : F → F → F
  pub div : F → F → F

pub record Stats (F : Type 0) : Type 0 where
  pub received : ℕ
  pub lost : ℕ
  pub duplicate : ℕ
  pub reordered : ℕ
  pub late : ℕ
  pub jitter_ms : F

pub record Buffered : Type 0 where
  pub p : Packet
  pub due : ℕ

-- `on_loss` says whether a hook is set; what it is called with is a result of `emit`.
pub record JitterBuffer (F : Type 0) : Type 0 where
  pub target : ℕ
  pub on_loss : Bool
  pub buf : List (ℕ × Buffered)
  pub expected : ℕ
  pub have_seq : Bool
  pub max_seen : ℕ
  pub stats : Stats F
  pub prev_transit : ℤ
  pub have_prev : Bool
  pub jitter : F

-- A counter of type uint64.
abbrev pub u64 : ℕ → ℕ
u64 n = n % 18446744073709551616

abbrev pub find : ℕ → List (ℕ × Buffered) → Option Buffered
find = GoMap.lookup ℕ_discrete

abbrev pub has : ℕ → List (ℕ × Buffered) → Bool
has k m = elim (find k m) [ none ↦ false | some b ↦ true ]

-- `if d < 0 { d = -d }`.
abbrev pub abs_int : ℤ → ℤ
abs_int d = if ltb_ℤ d (pos 0) then pos 0 -ℤ d else d

module _ {F : Type 0} where
  unfoldable pub count_received : JitterBuffer F → JitterBuffer F
  count_received jb = record jb {
    stats = record (jb.stats) { received = u64 (jb.stats.received + 1) };
  }

  unfoldable pub count_duplicate : JitterBuffer F → JitterBuffer F
  count_duplicate jb = record jb {
    stats = record (jb.stats) { duplicate = u64 (jb.stats.duplicate + 1) };
  }

  unfoldable pub count_late : JitterBuffer F → JitterBuffer F
  count_late jb = record jb { stats = record (jb.stats) { late = u64 (jb.stats.late + 1) } }

  unfoldable pub count_reordered : JitterBuffer F → JitterBuffer F
  count_reordered jb = record jb {
    stats = record (jb.stats) { reordered = u64 (jb.stats.reordered + 1) };
  }

  -- The first packet fixes where the sequence begins.
  unfoldable pub start_at : JitterBuffer F → ℕ → JitterBuffer F
  start_at jb seq = record jb { expected = seq; max_seen = seq; have_seq = true }

  -- `jb.buf[p.SequenceNumber] = buffered{p, recv.Add(jb.target)}`.
  unfoldable pub store : JitterBuffer F → Packet → ℕ → JitterBuffer F
  store jb p recv =
      let b : Buffered = record { p = p; due = recv + jb.target } in
      record jb { buf = GoMap.insert ℕ_discrete p.sequence_number b jb.buf }

module _ {F : Type 0} (fl : Float64 F) where
  open fl use {of_int, to_int64, add, sub, mul, div}

  unfoldable pub new : ℕ → Bool → JitterBuffer F
  new target on_loss = record {
    target = target;
    on_loss = on_loss;
    buf = [];
    expected = 0;
    have_seq = false;
    max_seen = 0;
    stats = record {
      received = 0;
      lost = 0;
      duplicate = 0;
      reordered = 0;
      late = 0;
      jitter_ms = of_int (pos 0);
    };
    prev_transit = pos 0;
    have_prev = false;
    jitter = of_int (pos 0);
  }

  -- The arrival instant on the RTP clock.
  unfoldable pub arrival : ℕ → ℤ
  arrival recv =
      to_int64 (div (mul (of_int (pos recv)) (of_int (pos clock_rate))) (of_int (pos 1000000000)))

  -- `jb.jitter += (float64(d) - jb.jitter) / 16`.
  abbrev pub smooth : F → ℤ → F
  smooth j d = add j (div (sub (of_int d) j) (of_int (pos 16)))

  -- Transit times stay far below 2^63, so `int64` is the integers here.
  unfoldable pub update_jitter : JitterBuffer F → Packet → ℕ → JitterBuffer F
  unfolding arrival
  update_jitter jb p recv =
      let transit = arrival recv -ℤ pos p.timestamp in
      let j = smooth jb.jitter (abs_int (transit -ℤ jb.prev_transit)) in
      let ms = mul (div j (of_int (pos clock_rate))) (of_int (pos 1000)) in
      let st = jb.stats in
      if jb.have_prev
      then record jb {
        jitter = j;
        stats = record st { jitter_ms = ms };
        prev_transit = transit;
        have_prev = true;
      }
      else record jb { prev_transit = transit; have_prev = true }

  unfoldable pub push_received : JitterBuffer F → Packet → ℕ → JitterBuffer F
  push_received jb p recv =
      let seq = p.sequence_number in
      let newest = record jb { max_seen = seq } in
      if not jb.have_seq
      then store (update_jitter (start_at jb seq) p recv) p recv
      else if has seq jb.buf
      then count_duplicate jb
      else if seq_before seq jb.expected
      then count_late jb
      else if seq_before seq jb.max_seen
      then store (update_jitter (count_reordered jb) p recv) p recv
      else store (update_jitter newest p recv) p recv

  -- `Push`: the counter, then the rest of the method.
  unfoldable pub push : JitterBuffer F → Packet → ℕ → JitterBuffer F
  unfolding push_received
  push jb p recv = push_received (count_received jb) p recv

-- One visit of `range jb.buf` in nextPresentDue.
abbrev pub better : ℕ → Option Buffered → Buffered → Option Buffered
better now best b = if ltb now b.due then best else elim best [
  | none ↦ some b
  | some c ↦ if seq_before b.p.sequence_number c.p.sequence_number then some b else some c
]

unfoldable pub best_due : ℕ → Option Buffered → List (ℕ × Buffered) → Option Buffered
best_due now best [] = best
best_due now best ((k, b) ∷ m) = best_due now (better now best b) m

unfoldable pub next_present_due : List (ℕ × Buffered) → ℕ → Option Buffered
unfolding best_due
next_present_due buf now = best_due now none buf

-- The calls of the hook: `n` sequence numbers from `cur` on.
unfoldable pub hook_calls : ℕ → ℕ → List ℕ
hook_calls zero cur = []
hook_calls (suc n) cur = cur ∷ hook_calls n (seq_next cur)

-- What one turn of the loop of `Emit` does: it breaks, plays a packet, or gives up a gap.
pub data Round (F : Type 0) : Type 0 where
  idle : Round F
  play : Packet → JitterBuffer F → Round F
  skip : List ℕ → JitterBuffer F → Round F

module _ {F : Type 0} where
  unfoldable pub played : JitterBuffer F → JitterBuffer F
  played jb = record jb {
    buf = GoMap.delete ℕ_discrete jb.expected jb.buf;
    expected = seq_next jb.expected;
  }

  unfoldable pub play_slot : JitterBuffer F → ℕ → Buffered → Round F
  unfolding played
  play_slot jb now b = if ltb now b.due then idle else play b.p (played jb)

  -- The gap [expected, next) is missing.
  unfoldable pub missing : JitterBuffer F → Buffered → ℕ
  missing jb next = seq_distance jb.expected next.p.sequence_number

  unfoldable pub skipped : JitterBuffer F → Buffered → JitterBuffer F
  unfolding missing
  skipped jb next = record jb {
    stats = record (jb.stats) { lost = u64 (jb.stats.lost + missing jb next) };
    expected = next.p.sequence_number;
  }

  unfoldable pub reported : JitterBuffer F → Buffered → List ℕ
  unfolding missing hook_calls
  reported jb next =
      let calls =
        if ltb max_loss_hook_calls (missing jb next)
        then max_loss_hook_calls
        else missing jb next in
      if jb.on_loss then hook_calls calls jb.expected else []

  unfoldable pub skip_gap : JitterBuffer F → Buffered → Round F
  unfolding skipped reported
  skip_gap jb next = skip (reported jb next) (skipped jb next)

  unfoldable pub emit_round : JitterBuffer F → ℕ → Round F
  unfolding play_slot skip_gap next_present_due
  emit_round jb now = elim (find jb.expected jb.buf) [
    | some b ↦ play_slot jb now b
    | none ↦ elim (next_present_due jb.buf now) [ none ↦ idle | some next ↦ skip_gap jb next ]
  ]

  -- The loop on fuel; `none` means that the fuel ran out. The results are the packets of `out`,
  -- the calls of the hook, and the buffer left.
  unfoldable pub emit_loop :
      ℕ → JitterBuffer F → ℕ → List Packet → List ℕ → Option (List Packet × List ℕ × JitterBuffer F)
  unfolding emit_round
  emit_loop zero jb now out calls = none
  emit_loop (suc fuel) jb now out calls = elim (emit_round jb now) [
    | idle ↦ some (out, calls, jb)
    | play p jb' ↦ emit_loop fuel jb' now (out ++ (p ∷ [])) calls
    | skip cs jb' ↦ emit_loop fuel jb' now out (calls ++ cs)
  ]

  -- Each packet takes two turns at most, and the last turn breaks.
  unfoldable pub emit : JitterBuffer F → ℕ → Option (List Packet × List ℕ × JitterBuffer F)
  unfolding emit_loop
  emit jb now = emit_loop (2 * length jb.buf + 2) jb now [] []

  unfoldable pub statistics : JitterBuffer F → Stats F
  statistics jb = jb.stats

  -- `Len`.
  unfoldable pub len : JitterBuffer F → ℕ
  len jb = length jb.buf

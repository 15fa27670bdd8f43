-- ===== src/Hw/Answered.antt =====
-- The commands of Command end, and the engine receives what they are to send, if the controller
-- raises CCEMTY and CDFULL after a number of reads each.
use usb_bulk.Prelude.{ℕ, ◌<◌, ◌≡◌, refl, ◌∙◌, ◌==◌, false, ap, some, List, ◌∷◌, arith, bit_or}
use usb_bulk.Bus.Regs.{dev_int_st, dev_int_clr, cmd_code, cmd_data, ccemty, cdfull}
use usb_bulk.Bus.Monad.{M, pure, ◌>>=◌, ◌>>◌}
use usb_bulk.Bus.Access.{Answers, Trace, Bus, bus, read, write, wait_bits, drain_words}
use usb_bulk.Bus.Ready.{Ready, Holds, wait_bits-Ready, drain_words-Holds}
use usb_bulk.Hw.Memory.{shl}
use usb_bulk.Hw.Command.{lpc_cmd, lpc_cmd_write, lpc_cmd_read}
use usb_bulk.Hw.Engine.{engine, decode_command, decode_written, decode_asked}

-- From the answers `i` on CCEMTY comes, and `j` is left.
abbrev pub Acked : Answers → Answers → Type 0
Acked i j = (v : ℕ) × Ready dev_int_st ccemty v j i

-- The writes up to the wait of a command's first phase, and all of them.
abbrev pub asked_trace : ℕ → Trace → Trace
asked_trace c t = (cmd_code, bit_or 0x500 (shl c 16)) ∷ (dev_int_clr, bit_or cdfull ccemty) ∷ t

abbrev pub command_trace : ℕ → Trace → Trace
command_trace c t = (dev_int_clr, ccemty) ∷ asked_trace c t

-- A program that ends with the answers `j` left, having sent `es` to the engine (the newest first).
pub record Sends {A : Type 0} (m : M Bus A) (a : A) (i j : Answers) (t : Trace)
    (es : List (ℕ × ℕ) → List (ℕ × ℕ)) : Type 0 where
  pub after : Trace
  pub runs : m (bus i t) ≡ some (a, bus j after)
  pub sent : engine after ≡ es (engine t)

module _ (c : ℕ) (small : c < 256) {i j : Answers} (t : Trace) (a : Acked i j) where
  pub lpc_cmd-runs : lpc_cmd c (bus i t) ≡ some (tt, bus j (command_trace c t))
  unfolding lpc_cmd write
  lpc_cmd-runs = ground (arith, wait_bits-Ready (asked_trace c t) a.1)

  pub lpc_cmd-Sends : Sends (lpc_cmd c) tt i j t (λ e. (5, c) ∷ e)
  lpc_cmd-Sends = record {
    after = command_trace c t;
    runs = lpc_cmd-runs;
    sent = ground (arith, decode_command c small);
  }

  pub lpc_cmd_write-Sends :
      (value : ℕ) {k : Answers}
      → value < 256
      → Acked j k
      → Sends (lpc_cmd_write c value) tt i k t (λ e. (1, value) ∷ (5, c) ∷ e)
  unfolding lpc_cmd_write write
  lpc_cmd_write-Sends value low b = record {
    after = (dev_int_clr, ccemty) ∷ (cmd_code, bit_or 0x100 (shl value 16)) ∷ command_trace c t;
    runs = ground (
      arith,
      wait_bits-Ready (asked_trace c t) a.1,
      wait_bits-Ready ((cmd_code, bit_or 0x100 (shl value 16)) ∷ command_trace c t) b.1,
    );
    sent = ground (arith, decode_command c small, decode_written value low);
  }

  pub lpc_cmd_read-Sends :
      {k : Answers} {v x : ℕ}
      → Ready dev_int_st cdfull v ((cmd_data, x) ∷ k) j
      → Sends (lpc_cmd_read c) x i k t (λ e. (2, c) ∷ (5, c) ∷ e)
  unfolding lpc_cmd_read write read
  lpc_cmd_read-Sends b = record {
    after = (dev_int_clr, cdfull) ∷ (cmd_code, bit_or 0x200 (shl c 16)) ∷ command_trace c t;
    runs = ground (
      arith,
      wait_bits-Ready (asked_trace c t) a.1,
      wait_bits-Ready ((cmd_code, bit_or 0x200 (shl c 16)) ∷ command_trace c t) b,
    );
    sent = ground (arith, decode_command c small, decode_asked c small);
  }

-- One after the other: what both send to the engine.
pub Sends-bind :
    {A B : Type 0} {m : M Bus A} {a : A} {b : B} {i j k : Answers} {t : Trace}
    {es fs : List (ℕ × ℕ) → List (ℕ × ℕ)} (f : A → M Bus B)
    → Sends m a i j t es
    → ((u : Trace) → Sends (f a) b j k u fs)
    → Sends (m >>= f) b i k t (λ e. fs (es e))
Sends-bind {fs} f p q = record {
  after = (q p.after).after;
  runs = ground (arith, p.runs, (q p.after).runs);
  sent = (q p.after).sent ∙ ap fs p.sent;
}

pub Sends-then :
    {B : Type 0} {m : M Bus (Unit {0})} {g : M Bus B} {b : B} {i j k : Answers} {t : Trace}
    {es fs : List (ℕ × ℕ) → List (ℕ × ℕ)}
    → Sends m tt i j t es
    → ((u : Trace) → Sends g b j k u fs)
    → Sends (m >> g) b i k t (λ e. fs (es e))
Sends-then {g} p q = Sends-bind (λ _. g) p q

pub pure-Sends :
    {A : Type 0} (a : A) (i : Answers) (t : Trace) → Sends (pure {S = Bus} a) a i i t (λ e. e)
pure-Sends a i t = record { after = t; runs = refl; sent = refl }

-- A write of any other register sends nothing.
pub write-Sends :
    (r v : ℕ) {i : Answers} (t : Trace)
    → (r == cmd_code) ≡ false
    → Sends (write r v) tt i i t (λ e. e)
unfolding write
write-Sends r v t h = record { after = (r, v) ∷ t; runs = refl; sent = ground arith }

pub read-Sends :
    (r : ℕ) {v : ℕ} {i : Answers} (t : Trace) → Sends (read r) v ((r, v) ∷ i) i t (λ e. e)
unfolding read
read-Sends r t = record { after = t; runs = ground arith; sent = refl }

pub wait_bits-Sends :
    {r mask v : ℕ} {j i : Answers} (t : Trace)
    → Ready r mask v j i
    → Sends (wait_bits r mask) v i j t (λ e. e)
wait_bits-Sends t h = record { after = t; runs = wait_bits-Ready t h; sent = refl }

pub drain_words-Sends :
    {ws : List ℕ} {j i : Answers} (t : Trace) → Holds j ws i → Sends drain_words ws i j t (λ e. e)
drain_words-Sends t h = record { after = t; runs = drain_words-Holds t h; sent = refl }

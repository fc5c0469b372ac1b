-- ===== src/Proto/Counter.antt =====
-- The nonce counters of src/proto/crypto.rs: `CounterGen`. The shared atomic is the field `count`;
-- a call of `next` hands back the generator after `fetch_add`. Sums wrap as in a release build.
pub mod Ranges
mod Examples
use newppp.Prelude.{ℕ, suc, ◌+◌, ◌%◌, ◌^◌, zero, List, [], ◌∷◌}

pub record CounterGen : Type 0 where
  pub base : ℕ
  pub count : ℕ

unfoldable pub stream : CounterGen
stream = record { base = 1; count = 0 }

unfoldable pub stream_server : CounterGen
stream_server = record { base = 2 ^ 62; count = 0 }

pub datagram : CounterGen
datagram = record { base = 2 ^ 63; count = 0 }

-- `(1 << 63) | (1 << 62)`: the two bits are distinct.
pub datagram_server : CounterGen
datagram_server = record { base = 2 ^ 63 + 2 ^ 62; count = 0 }

unfoldable pub next : CounterGen → CounterGen × ℕ
next g = (record g { count = (g.count + 1) % 2 ^ 64 }, (g.base + g.count) % 2 ^ 64)

-- The counters of `n` calls in a row.
pub draw : ℕ → CounterGen → List ℕ
draw zero g = []
draw (suc n) g = (next g).1 ∷ draw n (next g).0

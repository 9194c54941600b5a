-- ===== src/Proxy/Loop/Runs.antt =====
-- Runs of the proxy from its construction on, and the draining of what is in flight.
use m_kernel.Prelude.{
  ℕ, ◌+◌, ◌-◌, ◌≤◌, List, [], ◌∷◌, Bool, Option, ◌≡◌, ap, sym, ◌<◌, ◌∙◌, arith, ◌^◌, some, ◌++◌,
}
use m_kernel.Prelude.Int.{ℤ, pos, negsuc}
use m_kernel.Proxy.{Proxy, ProxyConfig, plus}
use m_kernel.Proxy.Setup.{new_proxy, normalized-num_qps, normalized-small}
use m_kernel.Proxy.Ledger.{Owed, posts_count}
use m_kernel.Proxy.WrId.{decode_wr_count}
use m_kernel.Proxy.Loop.{World, turn, drain_cq}
use m_kernel.Proxy.Loop.Balance.{Sound, turn-Sound}

-- Any number of turns of a new proxy. The completion queue returns completions of posted requests
-- only: after each turn no more has been taken off than was posted.
pub data Run (raw : ProxyConfig) (env : Option Bool) : Proxy → Type 0 where
  begin : Run raw env (new_proxy raw env)
  then_turn :
      {s : Proxy} (w : World)
      → Run raw env s
      → (turn w s).state.retired ≤ posts_count (turn w s).state.posted
      → Run raw env (turn w s).state

plus-zero : (z : ℤ) → plus z 0 ≡ z
unfolding plus
plus-zero (pos n) = ap pos (omega arith)
plus-zero (negsuc n) = ground arith

Owed-inflight :
    {s : Proxy}
    → Owed s 0
    → s.retired ≤ posts_count s.posted
    → s.inflight ≡ pos (posts_count s.posted - s.retired)
Owed-inflight {s} h le = sym (plus-zero s.inflight) ∙ h.accounts ∙ ground arith

-- What is known at the end of a run.
pub record Known (s : Proxy) : Type 0 where
  pub sound : Sound s
  pub covered : s.retired ≤ posts_count s.posted

pub new_proxy-Known :
    (raw : ProxyConfig) (env : Option Bool) → raw.num_qps < 2 ^ 31 → Known (new_proxy raw env)
unfolding new_proxy posts_count
new_proxy-Known raw env h = record {
  sound = record {
    sized = record { some_qp = normalized-num_qps raw env; qps_fit = normalized-small raw env h };
    owed = record { accounts = plus-zero (pos 0) };
    own_rr = normalized-num_qps raw env;
    held = tt;
  };
  covered = omega arith;
}

Run-Known :
    {raw : ProxyConfig} {env : Option Bool} {s : Proxy}
    → raw.num_qps < 2 ^ 31
    → Run raw env s
    → Known s
Run-Known {raw} {env} h begin = new_proxy-Known raw env h
Run-Known h (then_turn {s} w r le) =
    let k : Known s = Run-Known h r in
    record {
      sound =
          turn-Sound w s k.sound
            (posts_count s.posted - s.retired, Owed-inflight k.sound.owed k.covered);
      covered = le;
    }

-- In every run of a proxy that is set up with fewer than 2^31 QPs, whatever commands arrive and
-- whichever posts are refused, if the completion queue returns completions of posted requests only:
-- the counter of what is in flight is exactly the sum of the counts of all signaled requests in
-- accepted chains less the sum of those that have completed.
pub Run-inflight :
    (raw : ProxyConfig) (env : Option Bool) (s : Proxy)
    → raw.num_qps < 2 ^ 31
    → Run raw env s
    → (s.retired ≤ posts_count s.posted) × (s.inflight ≡ pos (posts_count s.posted - s.retired))
Run-inflight raw env s h r =
    let k : Known s = Run-Known h r in (k.covered, Owed-inflight k.sound.owed k.covered)

-- The sum of the counts of completions.
unfoldable pub total_count : List ℕ → ℕ
total_count [] = 0
total_count (wr_id ∷ wr_ids) = decode_wr_count wr_id + total_count wr_ids

unfoldable pub total_polled : List (List ℕ) → ℕ
total_polled [] = 0
total_polled (wr_ids ∷ polls) = total_count wr_ids + total_polled polls

-- A drain from `n` in flight that ends: it has done some of the polls, their counts add up to `n`,
-- and nothing is in flight.
pub record IsEmptied (polls : List (List ℕ)) (s : Proxy) (n : ℕ) : Type 0 where
  pub used : List (List ℕ)
  pub rest : List (List ℕ)
  pub end : Proxy
  pub ends : drain_cq polls s ≡ some (end, rest)
  pub prefix : polls ≡ used ++ rest
  pub all_completed : total_polled used ≡ n
  pub emptied : end.inflight ≡ pos 0

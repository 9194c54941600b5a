-- ===== src/Proxy/Loop/Forwards.antt =====
-- Forwarding and barriers keep the counter's account and what the rest of the turn relies on.
use m_kernel.Prelude.{
  ℕ, zero, suc, ◌+◌, Bool, true, false, ◌≡◌, if_both, Option, none, some, ap, if◌then◌else◌, refl,
  ◌<◌, ◌^◌, arith, sym, update, not, ◌==◌, ◌||◌,
}
use m_kernel.Prelude.Int.{ℤ, pos}
use m_kernel.Types.{TransferCmd, ForwardNotify}
use mathlib.Core.Path.{subst}
use m_kernel.Proxy.{Proxy, ProxyConfig, Post, post_send, add_inflight, plus}
use m_kernel.Proxy.Route.{local_qp}
use m_kernel.Proxy.Collect.Spec.{local_qp-own}
use m_kernel.Proxy.Kept.{Kept, Kept-refl, Kept-trans, post_send-Kept, counted-Kept}
use m_kernel.Proxy.Ledger.{Owed, chain_count, Signed-chain_count}
use m_kernel.Proxy.Loop.Posting.{Sized, counted-Owed}
use m_kernel.Proxy.Chain.Batch.{Signed-two}
use m_kernel.Proxy.Strided.{word_wr}
use m_kernel.Proxy.Forward.{
  post_single_write_flat, single_chain, single_slot, scan, scan_slot, next_slot, make_forward_cmd,
  poll_forward_notifications,
}

-- Not below zero.
abbrev pub IsCount : ℤ → Type 0
IsCount z = (n : ℕ) × (z ≡ pos n)

-- A step from `s` to `t` that keeps the account and never counts down.
pub record Safe (s t : Proxy) : Type 0 where
  pub kept : Kept s t
  pub owed : Owed s 0 → Owed t 0
  pub count : IsCount s.inflight → IsCount t.inflight

pub Safe-refl : (s : Proxy) → Safe s s
Safe-refl s = record { kept = Kept-refl s; owed = λ h. h; count = λ h. h }

Safe-trans : {s t u : Proxy} → Safe s t → Safe t u → Safe s u
Safe-trans a b = record {
  kept = Kept-trans a.kept b.kept;
  owed = λ h. b.owed (a.owed h);
  count = λ h. b.count (a.count h);
}

plus-IsCount : (z : ℤ) (c : ℕ) → IsCount z → IsCount (plus z c)
unfolding plus
plus-IsCount z c (n, e) = (n + c, ap (λ x. plus x c) e)

-- A change of memory that no account reads.
memory-Safe :
    (s : Proxy) (staging seen : ℕ → ℕ) (cursor : ℕ)
    → Safe s
        (record s { staging = staging; forward_seen_epoch = seen; forward_scan_cursor = cursor })
memory-Safe s staging seen cursor = record {
  kept = record { same_cfg = refl; same_limit = refl; same_pending = refl; same_rr = refl };
  owed = λ h. record { accounts = h.accounts };
  count = λ h. h;
}

module _ (accept : ℕ → Bool) where
  posting-Safe :
      (s : Proxy) (p : Post)
      → chain_count p.chain ≡ 1
      → Safe s (
          if (post_send accept s p).0
          then add_inflight (post_send accept s p).1 1
          else (post_send accept s p).1)
  unfolding post_send
  posting-Safe s p e = record {
    kept = counted-Kept (post_send accept s p).0 1 (post_send-Kept accept s p);
    owed = counted-Owed accept s p e;
    count = λ h.
        if_both (λ (r : Bool × Proxy). IsCount (if r.0 then add_inflight r.1 1 else r.1).inflight)
          (accept s.calls) (plus-IsCount s.inflight 1 h) h;
  }

  single_chain-count :
      (cfg : ProxyConfig) (cmd : TransferCmd) (qp : ℕ)
      → qp < 2 ^ 31
      → chain_count (single_chain cfg cmd qp) ≡ 1
  unfolding single_chain word_wr
  single_chain-count cfg cmd qp h = Signed-chain_count qp 1 h (omega arith) (Signed-two refl refl)

  -- The state after the answer to a single write.
  abbrev answered : Bool × Proxy → Bool × Proxy
  answered r = if r.0 then (true, add_inflight r.1 1) else (false, r.1)

  answered-state : (r : Bool × Proxy) → (answered r).1 ≡ (if r.0 then add_inflight r.1 1 else r.1)
  answered-state (true, t) = refl
  answered-state (false, t) = refl

  post_single-Safe :
      (s : Proxy) (cmd : TransferCmd) → Sized s.cfg → Safe s (post_single_write_flat accept s cmd).1
  unfolding post_single_write_flat
  post_single-Safe s cmd z = go (local_qp s.cfg cmd) refl
    where
      go : (q : Option ℕ) → local_qp s.cfg cmd ≡ q → Safe s (post_single_write_flat accept s cmd).1
      go none e = rw (post_single_write_flat, e) (Safe-refl s)
      go (some qp) e =
          let t : Proxy = record s { staging = update s.staging single_slot s.cfg.epoch } in
          let p : Post = record { on_qp = qp; chain = single_chain s.cfg cmd qp } in
          rw (post_single_write_flat, e)
            (subst (Safe s) (sym (answered-state (post_send accept t p))) (
              Safe-trans
                (memory-Safe s (update s.staging single_slot s.cfg.epoch) s.forward_seen_epoch
                  s.forward_scan_cursor)
                (posting-Safe t p (
                  single_chain-count s.cfg cmd qp
                    (omega (arith, local_qp-own s.cfg cmd qp e, z.qps_fit))))))

  module _ (table : ℕ → ForwardNotify) where
    scan_slot-Safe : (s : Proxy) (slot : ℕ) → Sized s.cfg → Safe s (scan_slot accept table s slot)
    unfolding scan_slot
    scan_slot-Safe s slot z =
        let n : ForwardNotify = table slot in
        if_both (Safe s) (s.forward_seen_epoch slot == s.cfg.epoch) (Safe-refl s) (
          if_both (Safe s) (not (n.epoch == s.cfg.epoch)) (Safe-refl s) (
            if_both (Safe s) (not (n.tile_id == slot)) (Safe-refl s) (
              let r : Bool × Proxy = post_single_write_flat accept s (make_forward_cmd s.cfg n) in
              let done : Safe s r.1 = post_single-Safe s (make_forward_cmd s.cfg n) z in
              if_both (Safe s) r.0
                (Safe-trans done (
                  memory-Safe r.1 r.1.staging (update r.1.forward_seen_epoch slot s.cfg.epoch)
                    r.1.forward_scan_cursor))
                done)))

    scan-Safe : (left : ℕ) (s : Proxy) → Sized s.cfg → Safe s (scan accept table left s)
    unfolding scan
    scan-Safe zero s z = Safe-refl s
    scan-Safe (suc left) s z =
        let moved : Proxy = record s {
          forward_scan_cursor = next_slot accept table s.cfg s.forward_scan_cursor;
        } in
        let first : Safe s (scan_slot accept table moved s.forward_scan_cursor) =
          Safe-trans (memory-Safe s s.staging s.forward_seen_epoch moved.forward_scan_cursor)
            (scan_slot-Safe moved s.forward_scan_cursor z) in
        Safe-trans first (
          scan-Safe left (scan_slot accept table moved s.forward_scan_cursor)
            (subst Sized (sym first.kept.same_cfg) z))

    pub poll_forward-Safe :
        (s : Proxy) → Sized s.cfg → Safe s (poll_forward_notifications accept table s)
    unfolding poll_forward_notifications
    poll_forward-Safe s z =
        if_both (Safe s)
          (not s.cfg.enable_forward_notify
            || not s.cfg.has_local_forward_notify
            || s.cfg.forward_notify_slots == 0)
          (Safe-refl s) (scan-Safe 256 s z)

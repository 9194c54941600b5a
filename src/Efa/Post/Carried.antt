-- ===== src/Efa/Post/Carried.antt =====
-- The slots of the staging memory that the requests of one command read.
use native.Mathlib.Nat.{mul-le-mul_right}
use m_kernel.Proxy.Strided.{logical_queue, run_tiles}
use m_kernel.Prelude.{
  ◌∷◌, refl, update_self, update_ne, if_both, [], ℕ, ◌<◌, ◌≤◌, Option, ◌%◌, ◌+◌, List, ◌≡◌, ◌≢◌,
  dec_lt, some, arith, ◌*◌, ◌/◌, div-add-mod', u32, ◌∙◌, none, u64, suc, ◌^◌, update, sym,
}
use m_kernel.Efa.{EfaConfig, Peer, EfaRequest, Efa, stage}
use m_kernel.Types.{TransferCmd, pack_arrival_work}
use m_kernel.Efa.Post.{CmdRequests, queue_requests, efa_word, efa_has_tail}
use m_kernel.Proxy.Strided.{run_tiles}

-- Numbers that are less than `c` apart have different remainders.
pub slots-apart : (c x y : ℕ) → x < y → y < x + c → x % c ≢ y % c
slots-apart c x y lt near e = elim (dec_lt (x / c) (y / c)) [
  | yes q ↦ absurd (
      omega (
        arith,
        e,
        div-add-mod' x c,
        div-add-mod' y c,
        mul-le-mul_right {m = suc (x / c)} {n = y / c} c q,
      ))
  | no q ↦ absurd (
      omega (
        arith,
        e,
        div-add-mod' x c,
        div-add-mod' y c,
        mul-le-mul_right {m = y / c} {n = x / c} c (omega arith),
      ))
]

-- The tail write of a command that has taken the place `place` of its logical queue.
abbrev pub TailCarried :
    EfaConfig → (lo hi : ℕ) → (ℕ → ℕ) → (place : ℕ) → Option EfaRequest → Type 0
TailCarried cfg lo hi mem place none = Unit {0}
TailCarried cfg lo hi mem place (some r) =
    (at : ℕ) × (lo ≤ at)
    × (at < hi)
    × (r.source.at_addr ≡ cfg.staging_addr + at % cfg.staging_count * 4)
    × (mem (at % cfg.staging_count) ≡ u32 (place + 1))

-- A word staged later is in another slot, up to `c` slots later.
pub kept_once :
    (c : ℕ) (mem : ℕ → ℕ) (x cursor word : ℕ)
    → x < cursor
    → cursor < x + c
    → update mem (cursor % c) word (x % c) ≡ mem (x % c)
kept_once c mem x cursor word before near =
    update_ne mem _ _ word (λ e. slots-apart c x cursor before near (sym e))

-- With `mem` as the staging memory, the requests of a command carry its words, from slots that are
-- claimed by the values from `lo` to `hi` of the cursor.
pub record Carried (cfg : EfaConfig) (peer : Peer) (total lo hi : ℕ) (mem : ℕ → ℕ)
    (cmd : TransferCmd) (r : CmdRequests) : Type 0 where
  pub flag_at : ℕ
  pub flag_lo : lo ≤ flag_at
  pub flag_hi : flag_at < hi
  pub flag_from : r.flag_request.source.at_addr ≡ cfg.staging_addr + flag_at % cfg.staging_count * 4
  pub flag_word :
      mem (flag_at % cfg.staging_count) ≡ pack_arrival_work cmd.tile_id (run_tiles cmd.bytes)
  pub place : ℕ
  pub flag_to :
      r.flag_request.remote_addr
      ≡ u64 (
          peer.remote_flags_addr
          + u32 (logical_queue total cmd * cfg.remote_queue_stride + place) * 4)
  pub tail_word : TailCarried cfg lo hi mem place r.tail_request

abbrev pub AllCarried :
    EfaConfig → Peer → (total lo hi : ℕ) → (ℕ → ℕ) → List TransferCmd → List CmdRequests → Type 0
AllCarried cfg peer total lo hi mem [] [] = Unit {0}
AllCarried cfg peer total lo hi mem (cmd ∷ cmds) (r ∷ rs) =
    Carried cfg peer total lo hi mem cmd r × AllCarried cfg peer total lo hi mem cmds rs
AllCarried cfg peer total lo hi mem cmds rs = ⊥

-- The slots claimed from `lo` to `hi` are the same in both memories.
abbrev pub Agree : (count lo hi : ℕ) → (ℕ → ℕ) → (ℕ → ℕ) → Type 0
Agree count lo hi mem mem' = (x : ℕ) → lo ≤ x → x < hi → mem' (x % count) ≡ mem (x % count)

pub TailCarried-kept :
    (cfg : EfaConfig) (lo lo' hi hi' : ℕ) (mem mem' : ℕ → ℕ) (place : ℕ) (r : Option EfaRequest)
    → lo' ≤ lo
    → hi ≤ hi'
    → Agree cfg.staging_count lo hi mem mem'
    → TailCarried cfg lo hi mem place r
    → TailCarried cfg lo' hi' mem' place r
TailCarried-kept cfg lo lo' hi hi' mem mem' place none down le same h = tt
TailCarried-kept cfg lo lo' hi hi' mem mem' place (some r) down le same
      (at, low, high, from, word) =
    (at, omega arith, omega arith, from, same at low high ∙ word)

pub Carried-kept :
    (cfg : EfaConfig) (peer : Peer) (total lo lo' hi hi' : ℕ) (mem mem' : ℕ → ℕ) (cmd : TransferCmd)
    (r : CmdRequests)
    → lo' ≤ lo
    → hi ≤ hi'
    → Agree cfg.staging_count lo hi mem mem'
    → Carried cfg peer total lo hi mem cmd r
    → Carried cfg peer total lo' hi' mem' cmd r
Carried-kept cfg peer total lo lo' hi hi' mem mem' cmd r down le same c = record {
  flag_at = c.flag_at;
  flag_lo = omega (arith, c.flag_lo);
  flag_hi = omega (arith, c.flag_hi);
  flag_from = c.flag_from;
  flag_word = same c.flag_at c.flag_lo c.flag_hi ∙ c.flag_word;
  place = c.place;
  flag_to = c.flag_to;
  tail_word =
      TailCarried-kept cfg lo lo' hi hi' mem mem' c.place r.tail_request down le same c.tail_word;
}

-- What the requests of one command do to the staging memory.
pub record Steps (s t : Efa) : Type 0 where
  pub not_back : s.staging_cursor ≤ t.staging_cursor
  pub at_most_two : t.staging_cursor ≤ s.staging_cursor + 2
  pub same_cfg : t.cfg ≡ s.cfg
  pub kept :
      (x : ℕ)
      → x < s.staging_cursor
      → s.staging_cursor + 2 ≤ x + s.cfg.staging_count
      → t.staging (x % s.cfg.staging_count) ≡ s.staging (x % s.cfg.staging_count)

module _ (peer : Peer) (qpn total : ℕ) (s : Efa) (cmd : TransferCmd)
    (room : s.staging_cursor + 2 < 2 ^ 32) (two : 2 ≤ s.cfg.staging_count) where
  pub next_cursor : u32 (s.staging_cursor + 1) ≡ s.staging_cursor + 1
  next_cursor = omega arith

  next_next_cursor : u32 (u32 (s.staging_cursor + 1) + 1) ≡ s.staging_cursor + 2
  next_next_cursor = omega arith

  abbrev slots : ℕ
  slots = s.cfg.staging_count

  abbrev packed : ℕ
  packed = pack_arrival_work cmd.tile_id (run_tiles cmd.bytes)

  abbrev tail_value : ℕ
  tail_value = u32 (s.sender_seq (logical_queue total cmd) + 1)

  abbrev flag_staged : ℕ → ℕ
  flag_staged = update s.staging (s.staging_cursor % slots) packed

  pub queue_requests-Steps : Steps s (queue_requests peer qpn total s cmd).1
  unfolding queue_requests stage
  queue_requests-Steps =
      if_both (λ (p : CmdRequests × Efa). Steps s p.1) (efa_has_tail s.cfg peer)
        (record {
          not_back = omega arith;
          at_most_two = omega arith;
          same_cfg = refl;
          kept = λ x low near. rw next_cursor (
              kept_once slots flag_staged x (s.staging_cursor + 1) tail_value (omega arith)
                (omega arith)
              ∙ kept_once slots s.staging x s.staging_cursor packed low (omega arith));
        })
        (record {
          not_back = omega arith;
          at_most_two = omega arith;
          same_cfg = refl;
          kept =
              λ x low near. kept_once slots s.staging x s.staging_cursor packed low (omega arith);
        })

  pub queue_requests-Carried :
      let p : CmdRequests × Efa = queue_requests peer qpn total s cmd in
      Carried s.cfg peer total s.staging_cursor p.1.staging_cursor p.1.staging cmd p.0
  unfolding queue_requests stage efa_word
  queue_requests-Carried =
      if_both
        (λ (p : CmdRequests × Efa).
          Carried s.cfg peer total s.staging_cursor p.1.staging_cursor p.1.staging cmd p.0)
        (efa_has_tail s.cfg peer)
        (record {
          flag_at = s.staging_cursor;
          flag_lo = omega arith;
          flag_hi = omega arith;
          flag_from = refl;
          flag_word = rw next_cursor (
              kept_once slots flag_staged s.staging_cursor (s.staging_cursor + 1) tail_value
                (omega arith) (omega arith)
              ∙ update_self s.staging (s.staging_cursor % slots) packed);
          place = s.sender_seq (logical_queue total cmd);
          flag_to = refl;
          tail_word = (
            s.staging_cursor + 1,
            omega arith,
            omega arith,
            rw next_cursor refl,
            rw next_cursor (update_self flag_staged ((s.staging_cursor + 1) % slots) tail_value),
          );
        })
        (record {
          flag_at = s.staging_cursor;
          flag_lo = omega arith;
          flag_hi = omega arith;
          flag_from = refl;
          flag_word = update_self s.staging (s.staging_cursor % slots) packed;
          place = s.sender_seq (logical_queue total cmd);
          flag_to = refl;
          tail_word = tt;
        })

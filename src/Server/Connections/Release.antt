-- ===== src/Server/Connections/Release.antt =====
-- The last loop of remove_connection, which releases the receive buffers of the connection.
use rdma_rendezvous_key_valu.Prelude.{
  ℕ, zero, suc, ◌+◌, ◌<◌, ◌≡◌, ◌≢◌, refl, ◌∙◌, inl, inr, Bool, true, false, ◌&&◌, ◌==◌, subst,
  if◌then◌else◌, ltb, leb, arith, Bool-cases, update, ==_refl, none, some, pos, dec_int,
}
use rdma_rendezvous_key_valu.Prelude.Exec.{done}
use rdma_rendezvous_key_valu.Platform.{Platform}
use rdma_rendezvous_key_valu.Common.Constants.{server_num_recv_buffs}
use rdma_rendezvous_key_valu.Common.Buffers.{release_receive_buffer}
use rdma_rendezvous_key_valu.Server.Store.{Store}
use rdma_rendezvous_key_valu.Server.Requests.{invalidate_requests_by_qp}
use rdma_rendezvous_key_valu.Server.State.{Server}
use rdma_rendezvous_key_valu.Server.Connections.{get_connection, release_buffers, remove_connection}

-- Whether the loop over n indices from i on meets the buffer k.
abbrev pub in_loop : ℕ → ℕ → ℕ → Bool
in_loop n i k = leb i k && ltb k (i + n)

-- A pass that has cleared the flag i, with a pass over the next n.
in_use_step :
    (n i k : ℕ) (own : ℕ → Bool) (flag : Bool)
    → own i ≡ true
    → (if in_loop n (i + 1) k && update own i false k
        then false
        else (if i == k then false else flag))
      ≡ (if in_loop (suc n) i k && own k then false else flag)
in_use_step n i k own flag set = elim (Bool-cases (i == k)) [
  | inl here ↦
      let e : i ≡ k = ground (arith, here) in
      let set' : own k ≡ true = subst (λ (j : ℕ). own j ≡ true) e set in ground (arith, here, set')
  | inr there ↦ ground (arith, there)
]

own_step :
    (n i k : ℕ) (own : ℕ → Bool)
    → (if in_loop n (i + 1) k then false else update own i false k)
      ≡ (if in_loop (suc n) i k then false else own k)
own_step n i k own = ground arith

module _ ⦃x : Platform⦄ where
  -- The flags that one pass over the flags of the connection c makes of those of the context.
  pub record IsReleased (n i c : ℕ) (s t : Server) : Type 0 where
    pub in_use :
        (k : ℕ)
        → t.ctx.in_use_recv k ≡ (
            if in_loop n i k && (s.connections c).buff_in_use k then false else s.ctx.in_use_recv k)
    pub own :
        (k : ℕ)
        → (t.connections c).buff_in_use k
          ≡ (if in_loop n i k then false else (s.connections c).buff_in_use k)
    pub other_connections : (d : ℕ) → c ≢ d → t.connections d ≡ s.connections d
    pub send_flags : t.ctx.in_use_send ≡ s.ctx.in_use_send
    pub posted : t.ctx.posted ≡ s.ctx.posted
    pub store : t.store ≡ s.store
    pub qp : (t.connections c).qp ≡ (s.connections c).qp
    pub curr : (t.connections c).curr_recv_buff ≡ (s.connections c).curr_recv_buff
    pub max : (t.connections c).max_recv_buff ≡ (s.connections c).max_recv_buff
    pub count : t.current_number_conns ≡ s.current_number_conns

  release_buffers-IsReleased :
      (n i c : ℕ) (s : Server)
      → (t : Server) × (release_buffers n i c s ≡ done (tt, t)) × IsReleased n i c s t
  unfolding release_buffers release_receive_buffer
  release_buffers-IsReleased zero i c s = (
    s,
    refl,
    record {
      in_use = λ k. ground arith;
      own = λ k. ground arith;
      other_connections = λ d ne. refl;
      send_flags = refl;
      posted = refl;
      store = refl;
      qp = refl;
      curr = refl;
      max = refl;
      count = refl;
    },
  )
  release_buffers-IsReleased (suc n) i c s = elim (Bool-cases ((s.connections c).buff_in_use i)) [
    | inl own ↦
        let own_flags = (s.connections c).buff_in_use in
        let u : Server = record s {
          ctx = record s.ctx { in_use_recv = update s.ctx.in_use_recv i false };
          connections =
              update s.connections c
                (record (s.connections c) { buff_in_use = update own_flags i false });
        } in
        let (t, run, v) = release_buffers-IsReleased n (i + 1) c u in
        let flags : (u.connections c).buff_in_use ≡ update own_flags i false = rw (==_refl c) in
        (
          t,
          rw own run,
          record {
            in_use =
                λ k. v.in_use k ∙ rw flags (in_use_step n i k own_flags (s.ctx.in_use_recv k) own);
            own = λ k. v.own k ∙ rw flags (own_step n i k own_flags);
            other_connections = λ d ne. v.other_connections d ne ∙ ground (arith, ne);
            send_flags = v.send_flags;
            posted = v.posted;
            store = v.store;
            qp = v.qp ∙ rw (==_refl c);
            curr = v.curr ∙ rw (==_refl c);
            max = v.max ∙ rw (==_refl c);
            count = v.count;
          },
        )
    | inr foreign ↦
        let (t, run, v) = release_buffers-IsReleased n (i + 1) c s in
        (
          t,
          rw foreign run,
          record {
            in_use = λ k. ground (arith, v.in_use k, foreign);
            own = λ k. ground (arith, v.own k, foreign);
            other_connections = v.other_connections;
            send_flags = v.send_flags;
            posted = v.posted;
            store = v.store;
            qp = v.qp;
            curr = v.curr;
            max = v.max;
            count = v.count;
          },
        )
  ]

  -- What remove_connection leaves of the connection c, with the store st.
  pub record IsRemoved (c : ℕ) (s : Server) (st : Store) (t : Server) : Type 0 where
    pub qp : (t.connections c).qp ≡ none
    pub curr : (t.connections c).curr_recv_buff ≡ pos 0
    pub max : (t.connections c).max_recv_buff ≡ pos 0
    pub own : (k : ℕ) → k < server_num_recv_buffs → (t.connections c).buff_in_use k ≡ false
    pub in_use :
        (k : ℕ)
        → k < server_num_recv_buffs
        → t.ctx.in_use_recv k
          ≡ (if (s.connections c).buff_in_use k then false else s.ctx.in_use_recv k)
    pub other_connections : (d : ℕ) → c ≢ d → t.connections d ≡ s.connections d
    pub send_flags : t.ctx.in_use_send ≡ s.ctx.in_use_send
    pub posted : t.ctx.posted ≡ s.ctx.posted
    pub store : t.store ≡ st
    pub count : t.current_number_conns ≡ dec_int s.current_number_conns

  -- For a queue pair that is that of the connection c, whose requests can be invalidated and which
  -- can be destroyed, remove_connection returns EXIT_SUCCESS. The slot of the connection is free
  -- again and counts one connection less; just those receive buffers are released that the
  -- connection had marked as its own, and it has none of its own any more. No other connection
  -- changes, nor what has been posted.
  pub remove_connection_lem :
      (qp_num c qp : ℕ) (s : Server) (st : Store)
      → get_connection qp_num s ≡ done (some c, s)
      → (s.connections c).qp ≡ some qp
      → invalidate_requests_by_qp qp s.store ≡ done (tt, st)
      → x.ibv_destroy_qp s.calls qp ≡ 0
      → (t : Server) × (remove_connection qp_num s ≡ done (true, t)) × IsRemoved c s st t
  unfolding remove_connection
  remove_connection_lem qp_num c qp s st found at invalidated destroyed =
      let u : Server = record s {
        store = st;
        connections =
            update s.connections c (record (s.connections c) {
              qp = none;
              max_recv_buff = pos 0;
              curr_recv_buff = pos 0;
            });
        current_number_conns = dec_int s.current_number_conns;
        calls = suc s.calls;
      } in
      let (t, run, v) = release_buffers-IsReleased server_num_recv_buffs 0 c u in
      let flags : (u.connections c).buff_in_use ≡ (s.connections c).buff_in_use = rw (==_refl c) in
      (
        t,
        rw (found, at, invalidated, destroyed, run),
        record {
          qp = v.qp ∙ rw (==_refl c);
          curr = v.curr ∙ rw (==_refl c);
          max = v.max ∙ rw (==_refl c);
          own = λ k h. v.own k ∙ ground (arith, h);
          in_use = λ k h. v.in_use k ∙ rw flags (ground (arith, h));
          other_connections = λ d ne. v.other_connections d ne ∙ ground (arith, ne);
          send_flags = v.send_flags;
          posted = v.posted;
          store = v.store;
          count = v.count;
        },
      )

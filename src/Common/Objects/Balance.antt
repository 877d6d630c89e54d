-- ===== src/Common/Objects/Balance.antt =====
-- The set-up of common/connection.c against the release of the two programs.
use rdma_rendezvous_key_valu.Prelude.{
  ℕ, zero, suc, ◌+◌, arith, ◌≡◌, refl, ◌⊎◌, inl, inr, Bool, true, false, List, [], ◌∷◌, Option,
  none, some, Bool-cases,
}
use rdma_rendezvous_key_valu.Prelude.Exec.{Outcome, done, Exec}
use rdma_rendezvous_key_valu.Common.Objects.{Verbs, Object, Objects, no_objects, make, or_null}
use rdma_rendezvous_key_valu.Common.Objects.Setup.{ContextObjects, server_init_ctx, client_init_ctx}
use rdma_rendezvous_key_valu.Common.Objects.Release.{release_client, release_server}

-- A property of both ends of a call that may give an object.
or_null-make :
    {B : Type 0} (P : Outcome (Option B × Objects) → Type 0) (gives : ℕ → Bool) (stands_on : List ℕ)
    (f : ℕ → Exec Objects (Option B)) (s : Objects)
    → (gives s.calls ≡ false → P (done (none, record s { calls = suc s.calls })))
    → (gives s.calls ≡ true
        → P (
            f (suc s.calls) (record {
              live = record { name = suc s.calls; stands_on = stands_on } ∷ s.live;
              calls = suc s.calls;
            })))
    → P (or_null (make gives stands_on) f s)
or_null-make P gives stands_on f s failed made = elim (Bool-cases (gives s.calls)) [
  | inl yes_made ↦ rw yes_made (made yes_made)
  | inr not_made ↦ rw not_made (failed not_made)
]

-- n, n - 1, …, 1: the names of the objects that n calls have given.
abbrev pub down_from : ℕ → List ℕ
down_from zero = []
down_from (suc n) = suc n ∷ down_from n

abbrev pub names : List Object → List ℕ
names [] = []
names (o ∷ os) = o.name ∷ names os

-- The objects that client_init_ctx makes.
abbrev pub client_objects : (use_event : Bool) → ℕ
client_objects true = 10
client_objects false = 9

module _ ⦃v : Verbs⦄ where
  -- A set-up that returns NULL after that many calls, with the objects of the first n calls live.
  abbrev pub StillThere : (n calls : ℕ) → Outcome (Option ContextObjects × Objects) → Type 0
  StillThere n calls r =
      (s : Objects) × (r ≡ done (none, s)) × (s.calls ≡ calls) × (names s.live ≡ down_from n)

  -- A set-up that returns NULL with the objects of all its calls but the last still live.
  abbrev pub Leaks : Outcome (Option ContextObjects × Objects) → Type 0
  Leaks r = (n : ℕ) × StillThere n (n + 1) r × (n ≡ 0 → v.calloc 0 ≡ false)

  leaks :
      (n : ℕ) (s : Objects)
      → s.calls ≡ suc n + 1
      → names s.live ≡ down_from (suc n)
      → Leaks (done (none, s))
  leaks n s count all = (suc n, (s, refl, count, all), λ h. absurd (omega (arith, h)))

  -- A set-up that returns a context, whose release leaves nothing.
  abbrev pub Balanced :
      {A : Type 0}
      → (ContextObjects → Exec Objects A)
      → A
      → Outcome (Option ContextObjects × Objects)
      → Type 0
  Balanced close a r =
      (ctx : ContextObjects) × (s s' : Objects) × (r ≡ done (some ctx, s))
      × (close ctx s ≡ done (a, s'))
      × (s'.live ≡ [])

  -- If no release fails for a reason of its own: the server's set-up, as the first calls, returns
  -- NULL or a context. Where it returns NULL, after n + 1 calls, the n objects that its first n
  -- calls have given, and no others, are still live; n is 0 only if the first allocation failed.
  -- Where it returns a context, the release of that context succeeds and leaves no object.
  pub server_init_ctx-Balanced :
      (in_size out_size max_recv_buf : ℕ)
      → ((c : ℕ) → v.ibv_release c ≡ true)
      → Leaks (server_init_ctx in_size out_size max_recv_buf no_objects)
        ⊎ Balanced release_server true (server_init_ctx in_size out_size max_recv_buf no_objects)
  unfolding server_init_ctx release_server
  server_init_ctx-Balanced in_size out_size max_recv_buf ok =
      let P : Outcome (Option ContextObjects × Objects) → Type 0 =
        λ r. Leaks r ⊎ Balanced release_server true r in
      or_null-make P v.calloc [] _ _ (λ missing. inl (0, (_, refl, refl, refl), λ h. missing))
        λ _.
          or_null-make P v.calloc [] _ _ (λ _. inl (leaks 0 _ refl refl))
            λ _.
              or_null-make P v.calloc [] _ _ (λ _. inl (leaks 1 _ refl refl))
                λ _.
                  or_null-make P v.ibv_open_device [] _ _ (λ _. inl (leaks 2 _ refl refl))
                    λ _.
                      or_null-make P v.ibv_alloc_pd _ _ _ (λ _. inl (leaks 3 _ refl refl))
                        λ _.
                          or_null-make P v.ibv_reg_mr _ _ _ (λ _. inl (leaks 4 _ refl refl))
                            λ _.
                              or_null-make P v.ibv_reg_mr _ _ _ (λ _. inl (leaks 5 _ refl refl))
                                λ _.
                                  or_null-make P v.ibv_create_cq _ _ _
                                    (λ _. inl (leaks 6 _ refl refl))
                                    λ _. inr (
                                      _,
                                      _,
                                      record { live = []; calls = 13 },
                                      refl,
                                      rw (ok 8, ok 9, ok 10, ok 11, ok 12),
                                      refl,
                                    )

  -- If no release fails for a reason of its own: the client's set-up, as the first calls, with a
  -- completion channel or without, returns NULL or a context. Where it returns NULL, either, after
  -- n + 1 calls, the n objects that its first n calls have given, and no others, are still live,
  -- and n is 0 only if the first allocation failed; or, two calls after the last of its nine
  -- objects, ten with the channel, all of these and no others are still live. Where it returns a
  -- context, the release of that context leaves no object.
  pub client_init_ctx-Balanced :
      (in_size out_size rx_depth : ℕ) (use_event : Bool)
      → ((c : ℕ) → v.ibv_release c ≡ true)
      → let r = client_init_ctx in_size out_size rx_depth use_event no_objects in
        let made = client_objects use_event in
        Leaks r ⊎ (StillThere made (made + 2) r ⊎ Balanced release_client tt r)
  unfolding client_init_ctx release_client
  client_init_ctx-Balanced in_size out_size rx_depth false ok =
      let P : Outcome (Option ContextObjects × Objects) → Type 0 =
        λ r. Leaks r ⊎ (StillThere 9 11 r ⊎ Balanced release_client tt r) in
      or_null-make P v.calloc [] _ _ (λ missing. inl (0, (_, refl, refl, refl), λ h. missing))
        λ _.
          or_null-make P v.calloc [] _ _ (λ _. inl (leaks 0 _ refl refl))
            λ _.
              or_null-make P v.calloc [] _ _ (λ _. inl (leaks 1 _ refl refl))
                λ _.
                  or_null-make P v.ibv_open_device [] _ _ (λ _. inl (leaks 2 _ refl refl))
                    λ _.
                      or_null-make P v.ibv_alloc_pd _ _ _ (λ _. inl (leaks 3 _ refl refl))
                        λ _.
                          or_null-make P v.ibv_reg_mr _ _ _ (λ _. inl (leaks 4 _ refl refl))
                            λ _.
                              or_null-make P v.ibv_reg_mr _ _ _ (λ _. inl (leaks 5 _ refl refl))
                                λ _.
                                  or_null-make P v.ibv_create_cq _ _ _
                                    (λ _. inl (leaks 6 _ refl refl))
                                    λ _.
                                      or_null-make P v.ibv_create_qp _ _ _
                                        (λ _. inl (leaks 7 _ refl refl))
                                        λ _. elim (Bool-cases (v.ibv_modify_qp 10)) [
                                          | inl ready ↦ rw ready (
                                              inr (
                                                inr (
                                                  _,
                                                  _,
                                                  record { live = []; calls = 17 },
                                                  refl,
                                                  rw (ok 11, ok 12, ok 13, ok 14, ok 15, ok 16),
                                                  refl,
                                                )))
                                          | inr failed ↦ rw failed (inr (inl (_, refl, refl, refl)))
                                        ]
  client_init_ctx-Balanced in_size out_size rx_depth true ok =
      let P : Outcome (Option ContextObjects × Objects) → Type 0 =
        λ r. Leaks r ⊎ (StillThere 10 12 r ⊎ Balanced release_client tt r) in
      or_null-make P v.calloc [] _ _ (λ missing. inl (0, (_, refl, refl, refl), λ h. missing))
        λ _.
          or_null-make P v.calloc [] _ _ (λ _. inl (leaks 0 _ refl refl))
            λ _.
              or_null-make P v.calloc [] _ _ (λ _. inl (leaks 1 _ refl refl))
                λ _.
                  or_null-make P v.ibv_open_device [] _ _ (λ _. inl (leaks 2 _ refl refl))
                    λ _. elim (Bool-cases (v.ibv_create_comp_channel 4)) [
                      | inr missing ↦ rw missing (inl (leaks 3 _ refl refl))
                      | inl made ↦ rw made (
                          or_null-make P v.ibv_alloc_pd _ _ _ (λ _. inl (leaks 4 _ refl refl))
                            λ _.
                              or_null-make P v.ibv_reg_mr _ _ _ (λ _. inl (leaks 5 _ refl refl))
                                λ _.
                                  or_null-make P v.ibv_reg_mr _ _ _ (λ _. inl (leaks 6 _ refl refl))
                                    λ _.
                                      or_null-make P v.ibv_create_cq _ _ _
                                        (λ _. inl (leaks 7 _ refl refl))
                                        λ _.
                                          or_null-make P v.ibv_create_qp _ _ _
                                            (λ _. inl (leaks 8 _ refl refl))
                                            λ _. elim (Bool-cases (v.ibv_modify_qp 11)) [
                                              | inl ready ↦ rw ready (
                                                  inr (
                                                    inr (
                                                      _,
                                                      _,
                                                      record { live = []; calls = 19 },
                                                      refl,
                                                      rw (
                                                        ok 12,
                                                        ok 13,
                                                        ok 14,
                                                        ok 15,
                                                        ok 16,
                                                        ok 17,
                                                        ok 18,
                                                      ),
                                                      refl,
                                                    )))
                                              | inr failed ↦
                                                  rw failed (inr (inl (_, refl, refl, refl)))
                                            ])
                    ]

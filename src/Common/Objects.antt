-- ===== src/Common/Objects.antt =====
-- What the two programs acquire and release around a run: the memory and the libibverbs objects of
-- a struct kv_context. Whether a call gives an object is the platform's choice; the calls that
-- release one are as ibv_destroy_cq(3), ibv_dealloc_pd(3) and ibv_destroy_comp_channel(3) describe
-- them: they fail while another object stands on theirs.
pub mod Setup
pub mod Release
pub mod Balance
use rdma_rendezvous_key_valu.Prelude.{
  ℕ, suc, Bool, true, false, ◌||◌, List, [], ◌∷◌, Option, none, some, ◌==◌, if◌then◌else◌, elem,
}
use rdma_rendezvous_key_valu.Prelude.Exec.{done, Exec, pure, ◌>>=◌}

-- The calls of calloc and of libibverbs, by the number of the calls before: whether each gives an
-- object, or succeeds.
pub record Verbs : Type 0 where
  pub calloc : (calls : ℕ) → Bool
  pub ibv_open_device : (calls : ℕ) → Bool
  pub ibv_create_comp_channel : (calls : ℕ) → Bool
  pub ibv_alloc_pd : (calls : ℕ) → Bool
  pub ibv_reg_mr : (calls : ℕ) → Bool
  pub ibv_create_cq : (calls : ℕ) → Bool
  pub ibv_create_qp : (calls : ℕ) → Bool
  pub ibv_modify_qp : (calls : ℕ) → Bool
  -- whether that release of an object on which nothing stands succeeds
  pub ibv_release : (calls : ℕ) → Bool

-- An object that is live, with the objects that it stands on.
pub record Object : Type 0 where
  pub name : ℕ
  pub stands_on : List ℕ

pub record Objects : Type 0 where
  pub live : List Object
  pub calls : ℕ

-- Before the first call.
abbrev pub no_objects : Objects
no_objects = record { live = []; calls = 0 }

abbrev pub in_use : ℕ → List Object → Bool
in_use name [] = false
in_use name (o ∷ os) = if elem name o.stands_on then true else in_use name os

abbrev pub without : ℕ → List Object → List Object
without name [] = []
without name (o ∷ os) = let rest = without name os in if o.name == name then rest else o ∷ rest

-- A call that may give an object; the name of the object is the number of the call.
abbrev pub make : (ℕ → Bool) → List ℕ → Exec Objects (Option ℕ)
make gives stands_on s =
    let name = suc s.calls in
    if gives s.calls
    then done (
      some name,
      record { live = record { name = name; stands_on = stands_on } ∷ s.live; calls = name },
    )
    else done (none, record s { calls = name })

-- `if (!p) return NULL;`
abbrev pub or_null :
    {A B : Type 0}
    → Exec Objects (Option A)
    → (A → Exec Objects (Option B))
    → Exec Objects (Option B)
or_null m f = do result ← m; elim result [ none ↦ pure none | some a ↦ f a ]

-- free, which does not ask who uses the memory
abbrev pub free : ℕ → Exec Objects (Unit {0})
free name s = done (tt, record s { live = without name s.live })

module _ ⦃v : Verbs⦄ where
  -- A call that releases an object, and whether it succeeds.
  abbrev pub destroy : ℕ → Exec Objects Bool
  destroy name s =
      if in_use name s.live
      then done (false, record s { calls = suc s.calls })
      else if v.ibv_release s.calls
      then done (true, record { live = without name s.live; calls = suc s.calls })
      else done (false, record s { calls = suc s.calls })

  -- ibv_close_device, which does not ask what was made with the device
  abbrev pub close_device : ℕ → Exec Objects Bool
  close_device name s =
      if v.ibv_release s.calls
      then done (true, record { live = without name s.live; calls = suc s.calls })
      else done (false, record s { calls = suc s.calls })

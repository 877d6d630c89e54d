-- ===== src/Tests/Maps.antt =====
-- The database from its start: the values "ab" and then "c" for the key "k", and "" for "j", by
-- calls of db_insert; and SETs of "abc" and "c" for "k".
use rdma_rendezvous_key_valu.Prelude.{
  ℕ, ◌≡◌, ◌+◌, ◌<◌, refl, List, [], ◌∷◌, Option, arith, All, zeroed, splice, c_string, length,
}
use rdma_rendezvous_key_valu.Prelude.Exec.{done, crash}
use rdma_rendezvous_key_valu.Platform.Instance.{test_platform}
use rdma_rendezvous_key_valu.Server.Db.{Db, no_db}
use rdma_rendezvous_key_valu.Server.Db.Items.{db_init}
use rdma_rendezvous_key_valu.Server.Db.Fresh.{Fits}
use rdma_rendezvous_key_valu.Server.Db.Map.{Represents}
use rdma_rendezvous_key_valu.Server.Db.Map.Insert.{Puts, put_values, insert_all, AllFit}
use rdma_rendezvous_key_valu.Server.Db.Map.Init.{bogus_map}
use rdma_rendezvous_key_valu.Server.Db.Map.Boot.{insert_all-db_init}
use rdma_rendezvous_key_valu.Server.Handlers.Set.{in_db_state}
use rdma_rendezvous_key_valu.Server.Handlers.Puts.{SetRequest, IsEager, handle_sets, puts_of}
use rdma_rendezvous_key_valu.Server.Handlers.Puts.Boot.{handle_sets-db_init}
use rdma_rendezvous_key_valu.Tests.Entries.{entry, abc}
use rdma_rendezvous_key_valu.Tests.Handlers.{server, server-IsIdle, request, headers, info}

abbrev puts : Puts
puts = (107 ∷ [], 97 ∷ 98 ∷ []) ∷ (107 ∷ [], 99 ∷ []) ∷ (106 ∷ [], []) ∷ []

puts-AllFit : AllFit puts
puts-AllFit = (
  (
    record {
      nonempty = λ h. cc;
      key_room = omega arith;
      key_short = omega arith;
      value_room = omega arith;
      value_short = omega arith;
    },
    (λ h. omega (arith, h), (λ h. omega (arith, h), tt)),
  ),
  (
    (
      (record {
        nonempty = λ h. cc;
        key_room = omega arith;
        key_short = omega arith;
        value_room = omega arith;
        value_short = omega arith;
      }),
      (λ h. omega (arith, h), tt),
    ),
    (
      (
        (record {
          nonempty = λ h. cc;
          key_room = omega arith;
          key_short = omega arith;
          value_room = omega arith;
          value_short = omega arith;
        }),
        tt,
      ),
      tt,
    ),
  ),
)

insert_all-db_init_example :
    (s1 s2 : Db) × (f : ℕ → Option ℕ) × (db_init no_db ≡ done (tt, s1))
    × (insert_all puts s1 ≡ done (tt, s2))
    × Represents s2 (put_values puts bogus_map) 987 f
insert_all-db_init_example =
    insert_all-db_init puts (λ c. refl) (omega arith) puts-AllFit (omega arith)

-- "abc" for "k", with the length of "abc" and its terminator.
abbrev set_abc : SetRequest
set_abc = record {
  qp = 40;
  headers = headers;
  room = 6;
  buffer = request;
  info = info;
  key = 107 ∷ [];
  value = abc;
}

abbrev set_c : SetRequest
set_c = record {
  qp = 40;
  headers = record headers { buflen = 2 };
  room = 4;
  buffer = splice zeroed 0 (107 ∷ 0 ∷ 99 ∷ 0 ∷ []);
  info = info;
  key = 107 ∷ [];
  value = 99 ∷ [];
}

k-Fits : (value : List ℕ) → length value + 1 < 5 → Fits (107 ∷ []) value
k-Fits value short = record {
  nonempty = λ h. cc;
  key_room = omega arith;
  key_short = omega arith;
  value_room = omega (arith, short);
  value_short = omega (arith, short);
}

sets-IsEager : All (IsEager (server entry)) (set_abc ∷ set_c ∷ [])
unfolding c_string
sets-IsEager = (
  record {
    key_read = refl;
    value_read = refl;
    fits_one = refl;
    fits = k-Fits abc (omega arith);
    idle = server-IsIdle entry;
  },
  (
    record {
      key_read = refl;
      value_read = refl;
      fits_one = refl;
      fits = k-Fits (99 ∷ []) (omega arith);
      idle = server-IsIdle entry;
    },
    tt,
  ),
)

handle_sets-db_init_example :
    (d1 d2 : Db) × (f : ℕ → Option ℕ) × (db_init no_db ≡ done (tt, d1))
    × (handle_sets 1 crash (set_abc ∷ set_c ∷ []) (in_db_state (server entry) d1)
        ≡ done (tt, in_db_state (server entry) d2))
    × Represents d2 (put_values (puts_of (set_abc ∷ set_c ∷ [])) bogus_map) 988 f
handle_sets-db_init_example =
    handle_sets-db_init 1 crash (set_abc ∷ set_c ∷ []) (server entry) (λ c. refl) (omega arith)
      sets-IsEager (omega arith)

-- ===== src/Server/Db/Map/Insert.antt =====
-- Sequences of calls of db_insert, against the map from keys to values.
use rdma_rendezvous_key_valu.Prelude.{
  ℕ, suc, ◌+◌, ◌≡◌, ◌≢◌, ◌≤◌, refl, ap, subst, ◌∙◌, sym, false, List, [], ◌∷◌, Option, some, none,
  update, arith, str_eq, str_eq_sound, str_eq_refl, c_string-zeroed, IsCString, All, length,
  ==_refl, Bool-cases, Option-cases, inl, inr, if◌then◌else◌, ne→==_false,
}
use rdma_rendezvous_key_valu.Prelude.Exec.{done, Exec, pure, ◌>>◌}
use rdma_rendezvous_key_valu.Platform.{Platform}
use rdma_rendezvous_key_valu.Server.Pool.Stock.{HasNext}
use rdma_rendezvous_key_valu.Server.Db.{Db, DbRest, Entry, Buffer, max_allocated_entries}
use rdma_rendezvous_key_valu.Server.Db.Items.{db_insert, db_get}
use rdma_rendezvous_key_valu.Server.Db.Locks.{init-IsLocked}
use rdma_rendezvous_key_valu.Server.Db.Insert.{
  HasRoom, with_value, inserted, db_insert-found, inserted_value, check_key_nonempty,
}
use rdma_rendezvous_key_valu.Server.Db.Fresh.{Fits, fresh_entry, inserted_fresh, insert_new_lem}
use rdma_rendezvous_key_valu.Server.Db.Map.{
  ValueMap, put_value, IsStored, Holds, Spare, Represents, Holds-elsewhere, key_of, other_key,
  earlier, unused_slot,
}

abbrev pub Puts : Type 0
Puts = List (List ℕ × List ℕ)

abbrev pub put_values : Puts → ValueMap → ValueMap
put_values [] m = m
put_values ((key, value) ∷ puts) m = put_values puts (put_value key value m)

module _ ⦃x : Platform⦄ where
  -- What a table stands for does not depend on how the map is given, and fewer entries may be left.
  pub Represents-same :
      (s : Db) (m m' : ValueMap) (n left : ℕ) (f : ℕ → Option ℕ)
      → ((j : List ℕ) → m j ≡ m' j)
      → left ≤ n
      → Represents s m n f
      → Represents s m' left f
  Represents-same s m m' n left f same few rep = record {
    slots = rep.slots;
    enough = omega (arith, rep.enough);
    inside = omega (arith, rep.inside);
    spare = λ i below. rep.spare i (omega arith);
    distinct = λ i j hi hj. rep.distinct i j (omega arith) (omega arith);
    holds = λ j. subst (Holds s j) (same j) (rep.holds j);
  }

  module _ (key value : List ℕ) (s : Db) (m : ValueMap) (left : ℕ) (f : ℕ → Option ℕ)
      (rep : Represents s m left f) where
    -- The keys other than the one that is inserted, whose entry is at p.
    others :
        (s' : Db) (p : ℕ)
        → ((q : ℕ) → p ≢ q → s'.rest.entries q ≡ s.rest.entries q)
        → ((j : List ℕ)
            → str_eq key j ≡ false
            → (x.keys.find j s'.rest.internal_db ≡ x.keys.find j s.rest.internal_db)
              × (x.keys.find j s.rest.internal_db ≢ some p))
        → Holds s' key (some value)
        → (j : List ℕ) → Holds s' j (put_value key value m j)
    others s' p same away new j = elim (Bool-cases (str_eq key j)) [
      | inl hit ↦ rw (hit, ← str_eq_sound key j hit) new
      | inr miss ↦
          rw miss
            (Holds-elsewhere s s' p j (m j) same (away j miss).0 (away j miss).1 (rep.holds j))
    ]

    -- A spare entry that neither is used nor comes into the table.
    still_spare :
        (s' : Db) (p i j : ℕ) (f' : ℕ → Option ℕ)
        → ((q : ℕ) → p ≢ q → s'.rest.entries q ≡ s.rest.entries q)
        → f' i ≡ f j
        → f j ≢ some p
        → ((k : List ℕ) (q : ℕ)
            → p ≢ q
            → x.keys.find k s'.rest.internal_db ≡ some q
            → x.keys.find k s.rest.internal_db ≡ some q)
        → Spare s f j
        → Spare s' f' i
    still_spare s' p i j f' same slot ne found (q, e, old, b, at, live, blank, unused) =
        let away : p ≢ q = λ p-q. ne (at ∙ ap some (sym p-q)) in
        (q, e, old, b, slot ∙ at, same q away ∙ live, blank, λ k h. unused k (found k q away h))

    -- A new value in the entry of the key.
    pub Represents-stored :
        (r : DbRest) (p : ℕ) (e e' : Entry) (b' : Buffer)
        → x.keys.find key s.rest.internal_db ≡ some p
        → s.rest.entries p ≡ some e
        → e.key ≡ some key
        → r.internal_db ≡ s.rest.internal_db
        → ((q : ℕ) → p ≢ q → r.entries q ≡ s.rest.entries q)
        → r.entries p ≡ some e'
        → IsStored e' key b' value
        → Represents (record s { rest = r }) (put_value key value m) left f
    Represents-stored r p e e' b' at live named table same new ok =
        let s' : Db = record s { rest = r } in
        let looks : (k : List ℕ) → x.keys.find k r.internal_db ≡ x.keys.find k s.rest.internal_db =
          λ k. ap (x.keys.find k) table in
        record {
          slots = rep.slots;
          enough = rep.enough;
          inside = rep.inside;
          spare = λ i below.
              let old_spare = rep.spare i below in
              let idx = s.pool.free_buffer_idx + i in
              still_spare s' p idx idx f same refl (unused_slot s f idx p key old_spare at)
                (λ k q ne found. sym (looks k) ∙ found) old_spare;
          distinct = rep.distinct;
          holds =
              others s' p same
                (λ j miss. (
                  looks j,
                  λ found.
                      other_key key j miss e named (key_of s j (m j) p e (rep.holds j) found live),
                ))
                (p, e', b', looks key ∙ at, new, ok);
        }

  module _ (key value : List ℕ) (s : Db) (m : ValueMap) (left : ℕ) (f : ℕ → Option ℕ)
      (rep : Represents s m (suc left) f) (fits : Fits key value) (text : IsCString value) where
    overwrites :
        (old : List ℕ)
        → m key ≡ some old
        → (s' : Db) × (db_insert key value s ≡ done (tt, s'))
          × Represents s' (put_value key value m) left f
    overwrites old there =
        let (p, e, b, at, live, ok) = subst (Holds s key) there (rep.holds key) in
        let h : HasRoom s key p e b value = record {
          nonempty = fits.nonempty;
          found = at;
          at = live;
          buffer = ok.value_at;
          allocated = ok.len;
          room = omega (arith, ok.allocated, fits.value_room);
          short = fits.value_short;
        } in
        let s' = inserted key value s p e b in
        (
          s',
          db_insert-found key value s p e b h,
          Represents-stored key value s m left f
              (Represents-same s m m (suc left) left f (λ j. refl) (omega arith) rep) s'.rest p e
              (with_value e b value) _ at live ok.key_at refl (λ q ne. rw (ne→==_false p q ne))
              (rw (==_refl p))
              (record {
                key_at = ok.key_at;
                value_at = refl;
                text =
                    inserted_value key value s p e b b.len text
                      (omega (arith, fits.value_room, ok.allocated, ok.len));
                allocated = ok.allocated;
                len = ok.len;
                locked = record {
                  reads = ok.locked.reads;
                  writes = ok.locked.writes;
                  alone = ok.locked.alone;
                };
                free = ok.free;
              }),
        )

    adds :
        m key ≡ none
        → (s' : Db) × (f' : ℕ → Option ℕ) × (db_insert key value s ≡ done (tt, s'))
          × Represents s' (put_value key value m) left f'
    unfolding db_insert db_get
    adds missing =
        let idx = s.pool.free_buffer_idx in
        let absent : x.keys.find key s.rest.internal_db ≡ none =
          subst (Holds s key) missing (rep.holds key) in
        let (p, e, old, b, slot, live, blank, unused) = rep.spare 0 (omega arith) in
        let idx-0 : idx + 0 ≡ idx = omega arith in
        let next : HasNext max_allocated_entries s.pool f p = record {
          slots = rep.slots;
          enough = omega (arith, rep.enough);
          inside = omega (arith, rep.inside);
          next = ap f (sym idx-0) ∙ slot;
        } in
        let s' = inserted_fresh key value s f p e b in
        let same : (q : ℕ) → p ≢ q → s'.rest.entries q ≡ s.rest.entries q =
          λ q ne. rw (ne→==_false p q ne) in
        let added : (j : List ℕ)
            → x.keys.find j s'.rest.internal_db
              ≡ (if str_eq key j then some p else x.keys.find j s.rest.internal_db) =
          λ j. x.keys.find-add key j p s.rest.internal_db absent in
        let shift : (i : ℕ) → update f idx none (idx + 1 + i) ≡ f (idx + suc i) = λ i.
          let i-suc : idx + 1 + i ≡ idx + suc i = omega arith in
          let ne : idx ≢ idx + suc i = λ h. omega arith in
          rw (i-suc, ne→==_false idx (idx + suc i) ne) in
        (
          s',
          update f idx none,
          rw (
            check_key_nonempty key s fits.nonempty,
            absent,
            insert_new_lem key value s f p e old b next live blank fits,
          ),
          record {
            slots = refl;
            enough = omega (arith, rep.enough);
            inside = omega (arith, rep.inside);
            spare = λ i below.
                still_spare key value s m (suc left) f rep s' p (idx + 1 + i) (idx + suc i)
                  (update f idx none) same (shift i)
                  (λ h. absurd (
                    omega
                      (arith, rep.distinct (suc i) 0 (omega arith) (omega arith) (h ∙ sym slot))))
                  (λ k q ne found. earlier p q key k _ ne (sym (added k) ∙ found))
                  (rep.spare (suc i) (omega arith));
            distinct = λ i j hi hj h.
                let ends =
                  rep.distinct (suc i) (suc j) (omega arith) (omega arith)
                    (sym (shift i) ∙ h ∙ shift j) in
                omega (arith, ends);
            holds =
                others key value s m (suc left) f rep s' p same
                  (λ j miss. (rw (added j, miss), unused j))
                  (
                    p,
                    fresh_entry key value e b,
                    _,
                    rw (added key, str_eq_refl key),
                    rw (==_refl p),
                    record {
                      key_at = refl;
                      value_at = refl;
                      text =
                          c_string-zeroed value b.len text
                            (omega (arith, fits.value_room, blank.allocated, blank.len));
                      allocated = blank.allocated;
                      len = blank.len;
                      locked =
                          init-IsLocked (fresh_entry key value e b) refl blank.readers
                            blank.writers;
                      free = omega (arith, blank.readers, blank.writers);
                    },
                  );
          },
        )

    pub db_insert-Represents :
        (s' : Db) × (f' : ℕ → Option ℕ) × (db_insert key value s ≡ done (tt, s'))
        × Represents s' (put_value key value m) left f'
    db_insert-Represents = elim (Option-cases (m key)) [
      | inl missing ↦ adds missing
      | inr (old, there) ↦ let (s', run, ok) = overwrites old there in (s', f, run, ok)
    ]

  abbrev pub insert_all : Puts → Exec Db (Unit {0})
  insert_all [] = pure tt
  insert_all ((key, value) ∷ puts) = do db_insert key value; insert_all puts

  abbrev pub AllFit : Puts → Type 0
  AllFit = All (λ put. Fits put.0 put.1 × IsCString put.1)

  -- From a table that stands for a map, with at least as many preallocated entries left as there
  -- are calls and at least nine more: calls of db_insert, for new keys and for keys that are
  -- there, whose keys are not empty and whose keys and values fit a preallocated entry, all
  -- return. The table then stands for the map after the same assignments: a key is found if and
  -- only if it has a value, its entry has that key, and its buffer holds that value.
  pub insert_all-Represents :
      (puts : Puts) (s : Db) (m : ValueMap) (left : ℕ) (f : ℕ → Option ℕ)
      → AllFit puts
      → Represents s m (length puts + left) f
      → (s' : Db) × (f' : ℕ → Option ℕ) × (insert_all puts s ≡ done (tt, s'))
        × Represents s' (put_values puts m) left f'
  insert_all-Represents [] s m left f fit rep =
      let zero-left : 0 + left ≡ left = omega arith in
      (s, f, refl, subst (λ n. Represents s m n f) zero-left rep)
  insert_all-Represents ((key, value) ∷ puts) s m left f ((fits, text), rest) rep =
      let suc-left : suc (length puts) + left ≡ suc (length puts + left) = omega arith in
      let rep' = subst (λ n. Represents s m n f) suc-left rep in
      let (s1, f1, run, ok) =
        db_insert-Represents key value s m (length puts + left) f rep' fits text in
      let (s', f', run', ok') =
        insert_all-Represents puts s1 (put_value key value m) left f1 rest ok in
      (s', f', rw run run', ok')

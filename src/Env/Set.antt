-- ===== src/Env/Set.antt =====
-- `set_environment` against `get_environment`: what it stores, and what it does with a long name.
use spoon_microkernel.Prelude.{
  ℕ, zero, suc, ◌+◌, ◌-◌, ◌≤◌, ◌<◌, ◌≡◌, ◌≢◌, refl, ap, sym, ◌∙◌, inl, inr, true, false, none, some,
  List, [], ◌∷◌, ◌++◌, length, take, set, ◌==◌, arith, length-append, length-set,
}
use spoon_microkernel.Prelude.Int.{pos, minus_one}
use spoon_microkernel.Strings.{c_string, strncpy}
use spoon_microkernel.Strings.Copy.{IsText, strncpy_lem, strncpy-long}
use spoon_microkernel.Env.{
  EnvironInfo, Environment, Answers, name_length, infos, find_name, no_info, info_at, store_info,
  set_environment, get_environment,
}
use spoon_microkernel.Env.Lookup.{
  value, value-long, first_named, IsInfo, take-all, value-set, value-append,
}
use spoon_microkernel.Env.Kept.{AreInfos-set, AreInfos-append}
use spoon_microkernel.Env.Stored.{
  IsEnvironment, answer, variable, find_name_lem, get_environment_lem, Stored, stored_lem,
}

length-take_le {ℓ} : {A : Type ℓ} (n : ℕ) (l : List A) → n ≤ length l → length (take n l) ≡ n
length-take_le zero l h = refl
length-take_le (suc n) [] h = absurd (omega arith)
length-take_le (suc n) (x ∷ l) h = ap suc (length-take_le n l (omega arith))

module _ {p : Environment} (h : IsEnvironment p) where
  -- A new element, under the name that its array holds.
  added :
      (k : List ℕ) (e : EnvironInfo)
      → c_string e.name ≡ k
      → IsInfo e
      → value k (infos p) ≡ none
      → Stored k (some (e.size, e.bytes)) p (record {
        environment = some (infos p ++ (e ∷ []));
        environment_count = p.environment_count + 1;
      })
  added k e at info absent =
      stored_lem k (some (e.size, e.bytes)) h
        (record {
          counted = omega (arith, h.counted, length-append (infos p) (e ∷ []));
          each = AreInfos-append k (infos p) e absent at info h.each;
        })
        (λ other. value-append k (take name_length other) (infos p) e absent at)

  replaced :
      (k : List ℕ) (size : ℕ) (bytes : List ℕ) (i : ℕ)
      → i ≡ first_named k (infos p)
      → i < p.environment_count
      → 0 < size
      → length bytes ≡ size
      → Stored k (some (size, bytes)) p (record p {
        environment = some (set (infos p) i (record (info_at i p) { size = size; bytes = bytes }));
      })
  replaced k size bytes i at lt some_bytes whole =
      let below : first_named k (infos p) < length (infos p) = omega (arith, at, h.counted) in
      rw at (
        stored_lem k (some (size, bytes)) h
          (record {
            counted = h.counted ∙ sym (length-set (infos p) (first_named k (infos p)) _);
            each = AreInfos-set k (infos p) no_info size bytes below some_bytes whole h.each;
          })
          (λ other. value-set k (take name_length other) (infos p) no_info size bytes below))

  module _ (name bytes fresh : List ℕ) (size : ℕ) (text : IsText name) (some_bytes : 0 < size)
      (readable : size ≤ length bytes) (room : length fresh ≡ name_length) where
    both : Answers
    both = record { malloced = true; realloced = some fresh }

    new_info : EnvironInfo
    new_info = record {
      name = strncpy fresh name name_length;
      size = size;
      bytes = take size bytes;
    }

    store_new :
        find_name name p ≡ p.environment_count
        → store_info both name bytes size p ≡ (
          pos 0,
          record {
            environment = some (infos p ++ (new_info ∷ []));
            environment_count = p.environment_count + 1;
          },
        )
    unfolding store_info both new_info
    store_new e =
        let last : (find_name name p == p.environment_count) ≡ true = ground arith in
        rw (last, store_info) refl

    store_old :
        find_name name p < p.environment_count
        → store_info both name bytes size p ≡ (
          pos 0,
          record p {
            environment = some (
                set
                  (infos p)
                  (find_name name p)
                  (record (info_at (find_name name p) p) { size = size; bytes = take size bytes }));
          },
        )
    unfolding store_info both
    store_old lt =
        let found : (find_name name p == p.environment_count) ≡ false = ground arith in
        rw (found, store_info) refl

    sized : length (take size bytes) ≡ size
    sized = length-take_le size bytes readable

    set_lem :
        length name < name_length
        → ((store_info both name bytes size p).0 ≡ pos 0)
          × Stored name (some (size, take size bytes)) p (store_info both name bytes size p).1
    unfolding new_info
    set_lem short =
        let held : c_string (strncpy fresh name name_length) ≡ name =
          strncpy_lem name fresh name_length room short (omega arith) text in
        let key : take name_length name ≡ name = take-all name_length name (omega arith) in
        elim (find_name_lem h name) [
          | inl (e, f) ↦ rw (store_new e) (
            refl,
            added name new_info held
                (record {
                  short = omega (arith, ap length held);
                  some_bytes = some_bytes;
                  whole = sized;
                })
                (ap (λ s. value s (infos p)) (sym key) ∙ f),
          )
          | inr (lt, at, f) ↦ rw (store_old lt) (
            refl,
            replaced name size (take size bytes) (find_name name p)
                (at ∙ ap (λ s. first_named s (infos p)) key) lt some_bytes sized,
          )
        ]

    set_store :
        set_environment both (some name) (some bytes) size p ≡ store_info both name bytes size p
    unfolding set_environment
    set_store = let runs : (size == 0) ≡ false = ground arith in rw (runs, set_environment) refl

    -- `set_environment` with a name shorter than its array, memory at hand and `size` bytes to read
    -- succeeds. `get_environment` then reads these bytes for the name, and for every other what it did.
    pub set_environment_lem :
        length name < name_length
        → ((set_environment
              (record { malloced = true; realloced = some fresh })
              (some name)
              (some bytes)
              size
              p).0
            ≡ pos 0)
          × Stored name
              (some (size, take size bytes))
              p
              (set_environment
                (record { malloced = true; realloced = some fresh })
                (some name)
                (some bytes)
                size
                p).1
    unfolding both
    set_environment_lem short = rw set_store (set_lem short)

    absent_long : name_length ≤ length name → find_name name p ≡ p.environment_count
    absent_long long = elim (find_name_lem h name) [
      | inl (e, f) ↦ e
      | inr (lt, _, f) ↦ absurd (none≢some (sym (missing long) ∙ f))
    ]
      where
        missing : name_length ≤ length name → variable name p ≡ none
        missing long =
            value-long (take name_length name) (infos p) h.each
              (omega (arith, length-take_le name_length name long))

        none≢some : {v : ℕ × List ℕ} → none ≢ some v
        none≢some e = cc

    cut_name_lem :
        name_length ≤ length name
        → variable (take (name_length - 2) name) p ≡ none
        → Stored (take (name_length - 2) name) (some (size, take size bytes)) p (record {
          environment = some (infos p ++ (new_info ∷ []));
          environment_count = p.environment_count + 1;
        })
    unfolding new_info
    cut_name_lem long absent =
        let held : c_string (strncpy fresh name name_length) ≡ take (name_length - 2) name =
          strncpy-long name fresh name_length room (omega arith) long (omega arith) text in
        let cut : length (take (name_length - 2) name) ≡ name_length - 2 =
          length-take_le (name_length - 2) name (omega arith) in
        let key : take name_length (take (name_length - 2) name) ≡ take (name_length - 2) name =
          take-all name_length _ (omega arith) in
        added (take (name_length - 2) name) new_info held
          (record { short = omega (arith, ap length held); some_bytes = some_bytes; whole = sized })
          (ap (λ s. value s (infos p)) (sym key) ∙ absent)

    -- `set_environment` with a name that does not fit its array and is not in use without all but its
    -- first 1022 bytes reports success, but the name is then not found.
    pub set_environment-long :
        name_length ≤ length name
        → variable (take (name_length - 2) name) p ≡ none
        → ((set_environment
              (record { malloced = true; realloced = some fresh })
              (some name)
              (some bytes)
              size
              p).0
            ≡ pos 0)
          × ((limit : ℕ)
              → get_environment name limit
                  (set_environment
                    (record { malloced = true; realloced = some fresh })
                    (some name)
                    (some bytes)
                    size
                    p).1
                ≡ (minus_one, []))
    unfolding both
    set_environment-long long absent = rw set_store (
        rw (store_new (absent_long long)) (refl, λ limit. unfound (cut_name_lem long absent) limit))
      where
        unfound :
            {p' : Environment}
            → Stored (take (name_length - 2) name) (some (size, take size bytes)) p p'
            → (limit : ℕ) → get_environment name limit p' ≡ (minus_one, [])
        unfound {p'} s limit =
            get_environment_lem s.kept name limit
            ∙ ap (answer limit) (
                value-long (take name_length name) (infos p') s.kept.each
                  (omega (arith, length-take_le name_length name long)))

-- ===== src/Fs/Table.antt =====
-- fs/vfs.go: AllocInode and the invariant of the table of open files.
use eggos.Base.{
  ℕ, zero, suc, ◌+◌, ◌<◌, ◌≡◌, ◌≢◌, refl, sym, ap, ◌∙◌, subst, Bool, true, false, Option, none,
  some, List, [], ◌∷◌, ◌++◌, length, get_or, set, ◌==◌, if◌then◌else◌, Bool-cases, Option-cases,
  ◌⊎◌, inl, inr, arith, ℕ_discrete, get_or-set_self, get_or-set_ne, get_or-append_left,
  get_or-append_end, get_or-append_past, get_or-past, set-past, length-append, length-set, dec_lt,
}
use eggos.Fs.{Devices, File, Inode, no_inode, release, first_free, alloc_inode, put_file}

module _ (D : Devices) where
  abbrev pub entry : List (Inode D) → ℕ → Inode D
  entry nis i = get_or nis i (no_inode D)

  abbrev pub no_file : Option (File D) → Bool
  no_file none = true
  no_file (some f) = false

  -- An entry in use knows its index, and a free one holds no file.
  unfoldable pub fits : ℕ → Inode D → Bool
  fits i ni = if ni.inuse then ni.fd == i else no_file ni.file

  abbrev pub IsTidy : List (Inode D) → Type 0
  IsTidy nis = (i : ℕ) → fits i (entry nis i) ≡ true

  fits-no_inode : (i : ℕ) → fits i (no_inode D) ≡ true
  unfolding fits
  fits-no_inode i = refl

  pub set-IsTidy :
      (nis : List (Inode D)) (i : ℕ) (v : Inode D)
      → IsTidy nis
      → fits i v ≡ true
      → IsTidy (set nis i v)
  set-IsTidy nis i v t h j = elim (dec_lt i (length nis)) [
    | yes p ↦ elim (ℕ_discrete i j) [
      | yes e ↦
          subst (λ k. fits k (entry (set nis i v) k) ≡ true) e
            (ap (fits i) (get_or-set_self nis i v (no_inode D) p) ∙ h)
      | no n ↦ ap (fits j) (get_or-set_ne nis i j v (no_inode D) n) ∙ t j
    ]
    | no p ↦ ap (λ xs. fits j (entry xs j)) (set-past nis i v (omega arith)) ∙ t j
  ]

  append-IsTidy :
      (nis : List (Inode D)) (v : Inode D)
      → IsTidy nis
      → fits (length nis) v ≡ true
      → IsTidy (nis ++ (v ∷ []))
  append-IsTidy nis v t h j = elim (dec_lt j (length nis)) [
    | yes p ↦ ap (fits j) (get_or-append_left nis (v ∷ []) j (no_inode D) p) ∙ t j
    | no p ↦ elim (ℕ_discrete (length nis) j) [
      | yes e ↦
          subst (λ k. fits k (entry (nis ++ (v ∷ [])) k) ≡ true) e
            (ap (fits (length nis)) (get_or-append_end nis v (no_inode D)) ∙ h)
      | no n ↦ ap (fits j) (get_or-append_past nis v (no_inode D) j (omega arith)) ∙ fits-no_inode j
    ]
  ]

  -- What AllocInode found: an entry that was free, or the end of the table.
  pub record Allocated (nis : List (Inode D)) (r : ℕ × List (Inode D)) : Type 0 where
    pub inside : r.0 < length r.1
    pub taken : (entry r.1 r.0).inuse ≡ true
    pub was_free : (entry nis r.0).inuse ≡ false
    pub no_file : no_file (entry r.1 r.0).file ≡ no_file (entry nis r.0).file
    pub others : (j : ℕ) → j ≢ r.0 → entry r.1 j ≡ entry nis j

  first_free-used :
      (i : ℕ) (ni : Inode D) (nis : List (Inode D))
      → ni.inuse ≡ true
      → first_free D i (ni ∷ nis) ≡ first_free D (suc i) nis
  unfolding first_free
  first_free-used i ni nis h = rw h refl

  first_free-hit :
      (i : ℕ) (ni : Inode D) (nis : List (Inode D))
      → ni.inuse ≡ false
      → first_free D i (ni ∷ nis) ≡ some i
  unfolding first_free
  first_free-hit i ni nis h = rw h refl

  first_free-nil : (i j : ℕ) → first_free D i [] ≢ some j
  unfolding first_free
  first_free-nil i j h = cc

  pub some_injective : (a b : ℕ) → ◌≡◌ {A = Option ℕ} (some a) (some b) → a ≡ b
  some_injective a b h = cc

  first_free-free :
      (i j : ℕ) (nis : List (Inode D))
      → first_free D i nis ≡ some j
      → (k : ℕ) × (j ≡ i + k) × (k < length nis) × ((entry nis k).inuse ≡ false)
  first_free-free i j [] h = absurd (first_free-nil i j h)
  first_free-free i j (ni ∷ nis) h = elim (Bool-cases ni.inuse) [
    | inl used ↦
        let (k, e, p, free) =
          first_free-free (suc i) j nis (sym (first_free-used i ni nis used) ∙ h) in
        (suc k, omega arith, omega arith, free)
    | inr free ↦ (
      0,
      omega (arith, some_injective i j (sym (first_free-hit i ni nis free) ∙ h)),
      omega arith,
      free,
    )
  ]

  abbrev new_inode : ℕ → Inode D
  new_inode fd = record { file = none; fd = fd; inuse = true }

  abbrev taken_inode : ℕ → Inode D → Inode D
  taken_inode fd ni = record ni { fd = fd; inuse = true }

  -- The two ways in which AllocInode ends.
  alloc_inode-cases :
      (nis : List (Inode D))
      → (alloc_inode D nis ≡ (length nis, nis ++ (new_inode (length nis) ∷ [])))
        ⊎ ((fd : ℕ) × (fd < length nis)
            × ((entry nis fd).inuse ≡ false)
            × (alloc_inode D nis ≡ (fd, set nis fd (taken_inode fd (entry nis fd)))))
  unfolding alloc_inode
  alloc_inode-cases nis = elim (Option-cases (first_free D 0 nis)) [
    | inl e ↦ inl (rw e refl)
    | inr (zero, e) ↦ inl (rw e refl)
    | inr (suc fd, e) ↦
        let (k, same, below, free) = first_free-free 0 (suc fd) nis e in
        let same' : k ≡ suc fd = omega arith in
        inr (
          suc fd,
          omega arith,
          subst (λ x. (entry nis x).inuse ≡ false) same' free,
          rw e (ground arith),
        )
  ]

  new-Allocated :
      (nis : List (Inode D)) → Allocated nis (length nis, nis ++ (new_inode (length nis) ∷ []))
  new-Allocated nis = record {
    inside = omega (arith, length-append nis (new_inode (length nis) ∷ []));
    taken = ap Inode.inuse (get_or-append_end nis (new_inode (length nis)) (no_inode D));
    was_free = ap Inode.inuse (get_or-past nis (no_inode D) (length nis) (omega arith));
    no_file =
        ap (λ (ni : Inode D). no_file ni.file)
          (get_or-append_end nis (new_inode (length nis)) (no_inode D))
        ∙ sym (
            ap (λ (ni : Inode D). no_file ni.file)
              (get_or-past nis (no_inode D) (length nis) (omega arith)));
    others = λ j ne. elim (dec_lt j (length nis)) [
      | yes p ↦ get_or-append_left nis (new_inode (length nis) ∷ []) j (no_inode D) p
      | no p ↦
          get_or-append_past nis (new_inode (length nis)) (no_inode D) j (omega arith)
          ∙ sym (get_or-past nis (no_inode D) j (omega arith))
    ];
  }

  reused-Allocated :
      (nis : List (Inode D)) (fd : ℕ)
      → fd < length nis
      → (entry nis fd).inuse ≡ false
      → Allocated nis (fd, set nis fd (taken_inode fd (entry nis fd)))
  reused-Allocated nis fd below free = record {
    inside = omega (arith, length-set nis fd (taken_inode fd (entry nis fd)));
    taken = ap Inode.inuse self;
    was_free = free;
    no_file = ap (λ (ni : Inode D). no_file ni.file) self;
    others = λ j ne.
        get_or-set_ne nis fd j (taken_inode fd (entry nis fd)) (no_inode D) (λ e. ne (sym e));
  }
    where
      self : entry (set nis fd (taken_inode fd (entry nis fd))) fd ≡ taken_inode fd (entry nis fd)
      self = get_or-set_self nis fd (taken_inode fd (entry nis fd)) (no_inode D) below

  -- AllocInode takes an entry that was not in use and leaves all others as they were.
  pub alloc_inode-Allocated : (nis : List (Inode D)) → Allocated nis (alloc_inode D nis)
  alloc_inode-Allocated nis = elim (alloc_inode-cases nis) [
    | inl e ↦ subst (Allocated nis) (sym e) (new-Allocated nis)
    | inr (fd, below, free, e) ↦ subst (Allocated nis) (sym e) (reused-Allocated nis fd below free)
  ]

  fits-taken : (fd : ℕ) (ni : Inode D) → fits fd (taken_inode fd ni) ≡ true
  unfolding fits
  fits-taken fd ni = ground arith

  pub alloc_inode-IsTidy : (nis : List (Inode D)) → IsTidy nis → IsTidy (alloc_inode D nis).1
  alloc_inode-IsTidy nis t = elim (alloc_inode-cases nis) [
    | inl e ↦
        subst (λ r. IsTidy r.1) (sym e)
          (append-IsTidy nis (new_inode (length nis)) t
            (fits-taken (length nis) (new_inode (length nis))))
    | inr (fd, below, free, e) ↦
        subst (λ r. IsTidy r.1) (sym e)
          (set-IsTidy nis fd (taken_inode fd (entry nis fd)) t (fits-taken fd (entry nis fd)))
  ]

  fits-put_file :
      (i : ℕ) (ni : Inode D) (f : File D)
      → ni.inuse ≡ true
      → fits i ni ≡ true
      → fits i (record ni { file = some f }) ≡ true
  unfolding fits
  fits-put_file i ni f used h = ground arith

  fits-release : (i : ℕ) (ni : Inode D) → fits i (release D ni) ≡ true
  unfolding fits
  fits-release i ni = refl

  pub put_file-IsTidy :
      (nis : List (Inode D)) (fd : ℕ) (f : File D)
      → IsTidy nis
      → (entry nis fd).inuse ≡ true
      → IsTidy (put_file D nis fd f)
  put_file-IsTidy nis fd f t used =
      set-IsTidy nis fd (record (entry nis fd) { file = some f }) t
        (fits-put_file fd (entry nis fd) f used (t fd))

  pub release-IsTidy :
      (nis : List (Inode D)) (fd : ℕ) → IsTidy nis → IsTidy (set nis fd (release D (entry nis fd)))
  release-IsTidy nis fd t =
      set-IsTidy nis fd (release D (entry nis fd)) t (fits-release fd (entry nis fd))

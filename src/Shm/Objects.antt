-- ===== src/Shm/Objects.antt =====
-- What one process allocates the others link to.
use mathlib.Core.Bool.{false≢true}
use user_level_ssd_cache_fra.Common.{
  ◌≢◌, ℕ, ◌≡◌, ◌∙◌, refl, sym, ap, subst, Bool, true, false, Option, none, some, Text, Option-cases,
  Bool-cases, inl, inr, arith,
}
use user_level_ssd_cache_fra.Shm.{
  Protection, read_write, Sharing, map_shared, map_private, System, alloc_shm, link_shm, unlink_shm,
}

-- What a POSIX system says of the calls of its processes: which object a name stands for, and which a
-- descriptor of a process and an address of a process do. A name that is open stands for the object of
-- its descriptor; opening and sizing leave what there is. A shared mapping is of the object of its
-- descriptor, a private one of none, and each leaves the mappings of the other processes, which may be
-- at the same address. A name that has been unlinked stands for nothing, and is not opened without
-- `O_CREAT`.
pub record IsPosix {World : Type 0} (calls : (process : ℕ) → System World) : Type 0 where
  pub named : World → Text → Option ℕ
  pub opened : World → (process fd : ℕ) → Option ℕ
  pub mapped : World → (process address : ℕ) → Option ℕ
  pub open_object :
      (p : ℕ) (name : Text) (create : Bool) (w : World) (fd : ℕ)
      → ((calls p).shm_open name create w).0 ≡ some fd
      → (o : ℕ) × (named ((calls p).shm_open name create w).1 name ≡ some o)
        × (opened ((calls p).shm_open name create w).1 p fd ≡ some o)
  pub open_named :
      (p : ℕ) (name : Text) (create : Bool) (w : World) (o : ℕ)
      → named w name ≡ some o
      → named ((calls p).shm_open name create w).1 name ≡ some o
  pub open_mapped :
      (p : ℕ) (name : Text) (create : Bool) (w : World) (q a : ℕ)
      → mapped ((calls p).shm_open name create w).1 q a ≡ mapped w q a
  pub open_missing :
      (p : ℕ) (name : Text) (w : World)
      → named w name ≡ none
      → ((calls p).shm_open name false w).0 ≡ none
  pub sized_named :
      (p fd size : ℕ) (w : World) (name : Text)
      → named ((calls p).ftruncate fd size w).1 name ≡ named w name
  pub sized_opened :
      (p fd size : ℕ) (w : World) (q fd' : ℕ)
      → opened ((calls p).ftruncate fd size w).1 q fd' ≡ opened w q fd'
  pub map_named :
      (p size : ℕ) (prot : Protection) (flags : Sharing) (fd : ℕ) (w : World) (name : Text)
      → named ((calls p).mmap size prot flags fd w).1 name ≡ named w name
  pub map_object :
      (p size : ℕ) (prot : Protection) (fd : ℕ) (w : World) (a : ℕ)
      → ((calls p).mmap size prot map_shared fd w).0 ≡ some a
      → mapped ((calls p).mmap size prot map_shared fd w).1 p a ≡ opened w p fd
  pub map_copy :
      (p size : ℕ) (prot : Protection) (fd : ℕ) (w : World) (a : ℕ)
      → ((calls p).mmap size prot map_private fd w).0 ≡ some a
      → mapped ((calls p).mmap size prot map_private fd w).1 p a ≡ none
  pub map_mapped :
      (p size : ℕ) (prot : Protection) (flags : Sharing) (fd : ℕ) (w : World) (q a : ℕ)
      → p ≢ q
      → mapped ((calls p).mmap size prot flags fd w).1 q a ≡ mapped w q a
  pub unlink_named :
      (p : ℕ) (name : Text) (w : World)
      → ((calls p).shm_unlink name w).0 ≡ true
      → named ((calls p).shm_unlink name w).1 name ≡ none

pub none≢some {ℓ} : {A : Type ℓ} {a : A} → none ≡ some a → ⊥
none≢some e = false≢true (ap (λ o. elim o [ none ↦ false | some _ ↦ true ]) e)

module _ {World : Type 0} (calls : ℕ → System World) (posix : IsPosix calls) where
  open posix use {
    named, opened, mapped, open_object, open_named, open_mapped, open_missing, sized_named,
    sized_opened, map_named, map_object, map_mapped, unlink_named,
  }

  -- The name stands for the object, and the address of the process is a shared mapping of it.
  abbrev pub IsMapped : World → Text → (process address object : ℕ) → Type 0
  IsMapped w name p a o = (named w name ≡ some o) × (mapped w p a ≡ some o)

  mmap-IsMapped :
      (p size fd : ℕ) (w : World) (name : Text) (a o : ℕ)
      → named w name ≡ some o
      → opened w p fd ≡ some o
      → ((calls p).mmap size read_write map_shared fd w).0 ≡ some a
      → IsMapped ((calls p).mmap size read_write map_shared fd w).1 name p a o
  mmap-IsMapped p size fd w name a o at_name at_fd done = (
    map_named p size read_write map_shared fd w name ∙ at_name,
    map_object p size read_write fd w a done ∙ at_fd,
  )

  alloc_shm-IsMapped :
      (p : ℕ) (name : Text) (size : ℕ) (w : World) (a : ℕ)
      → (alloc_shm (calls p) name size w).0 ≡ some a
      → (o : ℕ) × IsMapped (alloc_shm (calls p) name size w).1 name p a o
  unfolding alloc_shm
  alloc_shm-IsMapped p name size w a done =
      let os = calls p in
      elim (Option-cases (os.shm_open name true w).0) [
        | inl failed ↦ absurd (none≢some (rw (alloc_shm, failed) at done))
        | inr (fd, opens) ↦ elim (Bool-cases (os.ftruncate fd size (os.shm_open name true w).1).0) [
          | inr failed ↦ absurd (none≢some (rw (alloc_shm, opens, failed) at done))
          | inl sized ↦
              let (o, at_name, at_fd) = open_object p name true w fd opens in
              let w₁ = (os.shm_open name true w).1 in
              let w₂ = (os.ftruncate fd size w₁).1 in
              rw (alloc_shm, opens, sized)
                (
                  o,
                  mmap-IsMapped p size fd w₂ name a o (sized_named p fd size w₁ name ∙ at_name)
                      (sized_opened p fd size w₁ p fd ∙ at_fd)
                      (rw (alloc_shm, opens, sized) at done),
                )
        ]
      ]

  -- A link maps the object of the name, and leaves the mappings of the other processes.
  link_shm-IsMapped :
      (p q : ℕ) (name : Text) (size : ℕ) (w : World) (a b o : ℕ)
      → p ≢ q
      → IsMapped w name p a o
      → (link_shm (calls q) name size w).0 ≡ some b
      → IsMapped (link_shm (calls q) name size w).1 name p a o
        × IsMapped (link_shm (calls q) name size w).1 name q b o
  unfolding link_shm
  link_shm-IsMapped p q name size w a b o other (at_name, at_a) done =
      let os = calls q in
      elim (Option-cases (os.shm_open name false w).0) [
        | inl failed ↦ absurd (none≢some (rw (link_shm, failed) at done))
        | inr (fd, opens) ↦
            let w₁ = (os.shm_open name false w).1 in
            let (o', name', fd') = open_object q name false w fd opens in
            let still = open_named q name false w o at_name in
            let b_at =
              mmap-IsMapped q size fd w₁ name b o still (fd' ∙ sym name' ∙ still)
                (rw (link_shm, opens) at done) in
            let links : link_shm os name size w ≡ os.mmap size read_write map_shared fd w₁ =
              rw (link_shm, opens) refl in
            let a_at =
              map_mapped q size read_write map_shared fd w₁ p a (λ e. other (sym e))
              ∙ open_mapped q name false w p a
              ∙ at_a in
            subst (λ r. IsMapped r.1 name p a o × IsMapped r.1 name q b o) (sym links)
              ((b_at.0, a_at), b_at)
      ]

  -- On a POSIX system, if process `p` allocates the object of a name and another process `q` then links
  -- to it, and both get an address, then the address of each, in its own memory, is a shared mapping of
  -- the one object that the name stands for.
  pub alloc_shm-link_shm :
      (p q : ℕ) (name : Text) (size size' : ℕ) (w : World) (a b : ℕ)
      → p ≢ q
      → (alloc_shm (calls p) name size w).0 ≡ some a
      → (link_shm (calls q) name size' (alloc_shm (calls p) name size w).1).0 ≡ some b
      → let w' = (link_shm (calls q) name size' (alloc_shm (calls p) name size w).1).1 in
        (o : ℕ) × IsMapped w' name p a o × IsMapped w' name q b o
  alloc_shm-link_shm p q name size size' w a b other allocates links =
      let (o, m) = alloc_shm-IsMapped p name size w a allocates in
      let both =
        link_shm-IsMapped p q name size' (alloc_shm (calls p) name size w).1 a b o other m links in
      (o, both.0, both.1)

  -- Once a process has unlinked the name, no process can link to it.
  unlink_shm-link_shm :
      (p q : ℕ) (name : Text) (size : ℕ) (w : World)
      → (unlink_shm (calls p) name w).0 ≡ 0
      → (link_shm (calls q) name size (unlink_shm (calls p) name w).1).0 ≡ none
  unfolding unlink_shm link_shm
  unlink_shm-link_shm p q name size w done = elim (Bool-cases ((calls p).shm_unlink name w).0) [
    | inr failed ↦ absurd (omega (arith, rw (unlink_shm, failed) at done))
    | inl gone ↦
        rw
          (
            gone,
            link_shm,
            open_missing q name ((calls p).shm_unlink name w).1 (unlink_named p name w gone),
          )
          refl
  ]

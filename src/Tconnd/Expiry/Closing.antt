-- ===== src/Tconnd/Expiry/Closing.antt =====
-- tconnd/source/tconnd_timer.c and `tcond_socket_destruct`: which descriptors are closed.
use mathlib.Core.List.{Memᴰ}
use mathlib.Core.List.Memᴰ.{head, tail, cases_cons}
use tsf4g.Prelude.{
  ℕ, ◌≤◌, ◌<◌, inl, inr, ◌≡◌, ◌≢◌, refl, ◌∙◌, ap, subst, Bool-cases, Bool, true, false, Option,
  none, some, List, [], ◌∷◌, arith, ltb, if◌then◌else◌,
}
use tsf4g.Tconnd.{
  Status, status_closed, status_syn_sent, status_established, status_listen, Package, Socket, Ready,
  connection, Kernel, Tconnd, set_socket,
}
use tsf4g.Tconnd.Sockets.{close_fd, drop_readable, drop_package, destruct_as, destruct, delete}

-- Those of a queue whose time is up, in order.
abbrev pub due : {W : Type 0} → (Socket → ℕ) → Tconnd W → List ℕ → List ℕ
due ticks t [] = []
due ticks t (id ∷ ids) =
    let rest = due ticks t ids in if ltb t.cur_ticks (ticks (t.sockets id)) then rest else id ∷ rest

-- What the system is when the descriptors of some sockets are closed, one by one.
abbrev pub closed_all : {W : Type 0} → Kernel W → Tconnd W → List ℕ → W → W
closed_all kernel t [] w = w
closed_all kernel t (id ∷ ids) w = closed_all kernel t ids (kernel.close w (t.sockets id).socketfd)

module _ {W : Type 0} (kernel : Kernel W) where
  drop_readable-world :
      (b : Bool) (u : Tconnd W) (r : Ready) → (drop_readable kernel u r b).world ≡ u.world
  drop_readable-world true u r = refl
  drop_readable-world false u r = refl

  drop_package-world :
      (p : Option Package) (u : Tconnd W) (id : ℕ) → (drop_package kernel u id p).world ≡ u.world
  drop_package-world none u id = refl
  drop_package-world (some p) u id = refl

  destruct_as-world :
      (st : Status) (t : Tconnd W) (id : ℕ)
      → st ≢ status_closed
      → (destruct_as kernel st t id).world ≡ kernel.close t.world (t.sockets id).socketfd
  destruct_as-world status_closed t id n = absurd (n refl)
  destruct_as-world status_syn_sent t id n = refl
  destruct_as-world status_established t id n =
      let s = t.sockets id in
      drop_readable-world s.readable
        (set_socket (drop_package kernel (close_fd kernel t s) id s.package_buff) id
          (record s { package_buff = none }))
        (connection id)
      ∙ drop_package-world s.package_buff (close_fd kernel t s) id
  destruct_as-world status_listen t id n =
      drop_readable-world (t.sockets id).readable (close_fd kernel t (t.sockets id)) (connection id)

  -- The deletion of a socket that is in use closes its descriptor.
  pub delete-world :
      (t : Tconnd W) (id : ℕ)
      → (t.sockets id).status ≢ status_closed
      → (delete kernel t id).world ≡ kernel.close t.world (t.sockets id).socketfd
  unfolding delete destruct
  delete-world t id n = destruct_as-world (t.sockets id).status t id n

-- The sockets and the clock are all that this depends on.
pub due-same :
    {W : Type 0} (ticks : Socket → ℕ) (t u : Tconnd W) (l : List ℕ)
    → u.cur_ticks ≡ t.cur_ticks
    → ((j : ℕ) → Memᴰ j l → u.sockets j ≡ t.sockets j)
    → due ticks u l ≡ due ticks t l
due-same ticks t u [] c h = refl
due-same ticks t u (id ∷ ids) c h =
    rw (due-same ticks t u ids c (λ j m. h j (tail m)), c, h id (head refl)) refl

pub closed_all-same :
    {W : Type 0} (kernel : Kernel W) (t u : Tconnd W) (l : List ℕ) (w : W)
    → ((j : ℕ) → Memᴰ j l → u.sockets j ≡ t.sockets j)
    → closed_all kernel u l w ≡ closed_all kernel t l w
closed_all-same kernel t u [] w h = refl
closed_all-same kernel t u (id ∷ ids) w h =
    closed_all-same kernel t u ids (kernel.close w (u.sockets id).socketfd) (λ j m. h j (tail m))
    ∙ ap (λ (s : Socket). closed_all kernel t ids (kernel.close w s.socketfd)) (h id (head refl))

pub due-within :
    {W : Type 0} (ticks : Socket → ℕ) (t : Tconnd W) (l : List ℕ) (j : ℕ)
    → Memᴰ j (due ticks t l)
    → Memᴰ j l
due-within ticks t [] j m = m
due-within ticks t (id ∷ ids) j m =
    let rest = due ticks t ids in
    let found : (b : Bool)
        → ltb t.cur_ticks (ticks (t.sockets id)) ≡ b
        → Memᴰ j (if b then rest else id ∷ rest) =
      λ b h. subst (λ c. Memᴰ j (if c then rest else id ∷ rest)) h m in
    elim (Bool-cases (ltb t.cur_ticks (ticks (t.sockets id)))) [
      | inl h ↦ tail (due-within ticks t ids j (found true h))
      | inr h ↦ elim (cases_cons (found false h)) [
        | inl e ↦ head e
        | inr m' ↦ tail (due-within ticks t ids j m')
      ]
    ]

pub due-none :
    {W : Type 0} (ticks : Socket → ℕ) (t : Tconnd W) (l : List ℕ)
    → ((j : ℕ) → Memᴰ j l → t.cur_ticks < ticks (t.sockets j))
    → due ticks t l ≡ []
due-none ticks t [] h = refl
due-none ticks t (id ∷ ids) h =
    let b : ltb t.cur_ticks (ticks (t.sockets id)) ≡ true = ground (arith, h id (head refl)) in
    rw b (due-none ticks t ids (λ j m. h j (tail m)))

pub due-one :
    {W : Type 0} (ticks : Socket → ℕ) (t : Tconnd W) (id : ℕ) (ids : List ℕ)
    → ticks (t.sockets id) ≤ t.cur_ticks
    → due ticks t (id ∷ ids) ≡ id ∷ due ticks t ids
due-one ticks t id ids h =
    let b : ltb t.cur_ticks (ticks (t.sockets id)) ≡ false = ground (arith, h) in rw b refl

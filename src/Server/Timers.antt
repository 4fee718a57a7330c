-- ===== src/Server/Timers.antt =====
-- The timers of the server: each has a number of its own, and the number that a connection keeps is
-- that of no delayed event.
use g_plat.Prelude.{
  ℕ, ◌+◌, ◌<◌, ◌≡◌, refl, ap, Bool, true, false, some, List, [], ◌∷◌, ◌++◌, arith, ◌==◌,
  if◌then◌else◌, Bool-cases, inl, inr, subst, ==_iff,
}
use g_plat.Server.{Message, Timer, Task, time_out, hand_over, without_timer}
use g_plat.Server.Handle.{task_of}

-- Whether a timer is for a delayed event that `p` picks out, as a number.
abbrev pub one : (Message → Bool) → Task → ℕ
one p (time_out c) = 0
one p (hand_over m) = if p m then 1 else 0

-- How many delayed events that `p` picks out still wait.
abbrev pub pending : (Message → Bool) → List Timer → ℕ
pending p [] = 0
pending p (timer ∷ timers) = one p timer.task + pending p timers

abbrev pub TimesOut : Task → Type 0
TimesOut (time_out c) = Unit {0}
TimesOut (hand_over m) = ⊥

abbrev pub AllBelow : ℕ → List Timer → Type 0
AllBelow n [] = Unit {0}
AllBelow n (timer ∷ timers) = (timer.id < n) × AllBelow n timers

abbrev pub AllOther : ℕ → List Timer → Type 0
AllOther id [] = Unit {0}
AllOther id (timer ∷ timers) = ((timer.id == id) ≡ false) × AllOther id timers

abbrev pub AllApart : List Timer → Type 0
AllApart [] = Unit {0}
AllApart (timer ∷ timers) = AllOther timer.id timers × AllApart timers

-- No delayed event has the number.
abbrev pub IsLimit : ℕ → List Timer → Type 0
IsLimit id [] = Unit {0}
IsLimit id (timer ∷ timers) = ((timer.id == id) ≡ true → TimesOut timer.task) × IsLimit id timers

pub AllBelow-more : (n : ℕ) (ts : List Timer) → AllBelow n ts → AllBelow (n + 1) ts
AllBelow-more n [] h = tt
AllBelow-more n (t ∷ ts) (lt, h) = (omega (arith, lt), AllBelow-more n ts h)

AllBelow-AllOther : (n : ℕ) (ts : List Timer) → AllBelow n ts → AllOther n ts
AllBelow-AllOther n [] h = tt
AllBelow-AllOther n (t ∷ ts) (lt, h) = (ground (arith, lt), AllBelow-AllOther n ts h)

AllOther-IsLimit : (n : ℕ) (ts : List Timer) → AllOther n ts → IsLimit n ts
AllOther-IsLimit n [] h = tt
AllOther-IsLimit n (t ∷ ts) (off, h) = ((λ e. cc), AllOther-IsLimit n ts h)

pub AllBelow-append :
    (n : ℕ) (ts : List Timer) (t : Timer) → AllBelow n ts → t.id < n → AllBelow n (ts ++ t ∷ [])
AllBelow-append n [] t h lt = (lt, tt)
AllBelow-append n (x ∷ ts) t (below, h) lt = (below, AllBelow-append n ts t h lt)

AllOther-append :
    (n : ℕ) (ts : List Timer) (t : Timer)
    → AllOther n ts
    → (t.id == n) ≡ false
    → AllOther n (ts ++ t ∷ [])
AllOther-append n [] t h off = (off, tt)
AllOther-append n (x ∷ ts) t (other, h) off = (other, AllOther-append n ts t h off)

pub AllApart-append :
    (ts : List Timer) (t : Timer) → AllApart ts → AllBelow t.id ts → AllApart (ts ++ t ∷ [])
AllApart-append [] t h below = (tt, tt)
AllApart-append (x ∷ ts) t (other, h) (lt, below) =
    (AllOther-append x.id ts t other (ground (arith, lt)), AllApart-append ts t h below)

IsLimit-append :
    (n : ℕ) (ts : List Timer) (t : Timer)
    → IsLimit n ts
    → ((t.id == n) ≡ true → TimesOut t.task)
    → IsLimit n (ts ++ t ∷ [])
IsLimit-append n [] t h k = (k, tt)
IsLimit-append n (x ∷ ts) t (limit, h) k = (limit, IsLimit-append n ts t h k)

-- A new timer leaves the numbers below its own alone.
pub IsLimit-new :
    (n : ℕ) (ts : List Timer) (t : Timer) → IsLimit n ts → n < t.id → IsLimit n (ts ++ t ∷ [])
IsLimit-new n ts t h lt = IsLimit-append n ts t h (λ e. absurd (ground (arith, lt, e)))

-- The number of a new time limit.
pub IsLimit-time_out :
    (n : ℕ) (ts : List Timer) (c : ℕ)
    → AllBelow n ts
    → IsLimit n (ts ++ record { id = n; task = time_out c } ∷ [])
IsLimit-time_out n ts c h =
    IsLimit-append n ts (record { id = n; task = time_out c })
      (AllOther-IsLimit n ts (AllBelow-AllOther n ts h)) (λ e. tt)

pub pending-append :
    (p : Message → Bool) (ts : List Timer) (t : Timer)
    → pending p (ts ++ t ∷ []) ≡ pending p ts + one p t.task
pending-append p [] t = omega arith
pending-append p (x ∷ ts) t = omega (arith, pending-append p ts t)

module _ (id : ℕ) where
  pub AllBelow-without :
      (n : ℕ) (ts : List Timer) → AllBelow n ts → AllBelow n (without_timer id ts)
  AllBelow-without n [] h = tt
  AllBelow-without n (t ∷ ts) (lt, h) = elim (Bool-cases (t.id == id)) [
    | inl e ↦ rw e (AllBelow-without n ts h)
    | inr e ↦ rw e (lt, AllBelow-without n ts h)
  ]

  AllOther-without : (n : ℕ) (ts : List Timer) → AllOther n ts → AllOther n (without_timer id ts)
  AllOther-without n [] h = tt
  AllOther-without n (t ∷ ts) (off, h) = elim (Bool-cases (t.id == id)) [
    | inl e ↦ rw e (AllOther-without n ts h)
    | inr e ↦ rw e (off, AllOther-without n ts h)
  ]

  pub AllApart-without : (ts : List Timer) → AllApart ts → AllApart (without_timer id ts)
  AllApart-without [] h = tt
  AllApart-without (t ∷ ts) (other, h) = elim (Bool-cases (t.id == id)) [
    | inl e ↦ rw e (AllApart-without ts h)
    | inr e ↦ rw e (AllOther-without t.id ts other, AllApart-without ts h)
  ]

  pub IsLimit-without : (n : ℕ) (ts : List Timer) → IsLimit n ts → IsLimit n (without_timer id ts)
  IsLimit-without n [] h = tt
  IsLimit-without n (t ∷ ts) (limit, h) = elim (Bool-cases (t.id == id)) [
    | inl e ↦ rw e (IsLimit-without n ts h)
    | inr e ↦ rw e (limit, IsLimit-without n ts h)
  ]

  no_one : (p : Message → Bool) (task : Task) → TimesOut task → one p task ≡ 0
  no_one p (time_out c) h = refl
  no_one p (hand_over m) h = absurd h

  pub pending-limit :
      (p : Message → Bool) (ts : List Timer)
      → IsLimit id ts
      → pending p (without_timer id ts) ≡ pending p ts
  pending-limit p [] h = refl
  pending-limit p (t ∷ ts) (limit, h) = elim (Bool-cases (t.id == id)) [
    | inl e ↦ rw e (omega (arith, pending-limit p ts h, no_one p t.task (limit e)))
    | inr e ↦ rw e (omega (arith, pending-limit p ts h))
  ]

  without-other : (ts : List Timer) → AllOther id ts → without_timer id ts ≡ ts
  without-other [] h = refl
  without-other (t ∷ ts) (off, h) = rw off (ap (λ l. t ∷ l) (without-other ts h))

  pub pending-task :
      (p : Message → Bool) (ts : List Timer) (task : Task)
      → AllApart ts
      → task_of id ts ≡ some task
      → pending p ts ≡ pending p (without_timer id ts) + one p task
  pending-task p [] task h e = absurd (cc e)
  pending-task p (t ∷ ts) task (other, h) e = elim (Bool-cases (t.id == id)) [
    | inl same ↦
        let eq : t.task ≡ task = cc (rw same at e) in
        rw same (
          omega (
            arith,
            ap (pending p)
                (without-other ts (subst (λ n. AllOther n ts) ((==_iff t.id id).0 same) other)),
            ap (one p) eq,
          ))
    | inr off ↦ rw off (omega (arith, pending-task p ts task h (rw off at e)))
  ]

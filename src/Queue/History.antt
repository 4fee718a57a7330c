-- ===== src/Queue/History.antt =====
-- The slots of a shift queue, counted back from the write pointer, and what a write does to them.
use g_plat.Prelude.{
  ℕ, suc, ◌+◌, ◌-◌, ◌%◌, ◌<◌, ◌≡◌, ◌≢◌, refl, sym, ap, ap₂, ◌∙◌, List, ◌∷◌, Option, arith, min,
  length, take, collect, collect-ext, collect-cons, take-collect, mod_once,
}
use g_plat.Errors.{done}
use g_plat.Queue.{Queue, Record, binary_type}
use g_plat.Queue.Put.{ip_of, put_record, write_q, write_size, write_sized, stamp}
use g_plat.Queue.Inv.{IsShift}
use g_plat.Queue.Contents.{stored_body}

-- A shift queue of binary records, each slot labelled by its place and holding `size` bytes.
pub record IsHistory (q : Queue) : Type 0 where
  pub shift : IsShift q
  pub binary : q.data_type ≡ binary_type
  pub bodies : (i : ℕ) → length (q.records i).body ≡ q.size
  pub labels : (i : ℕ) → (q.records i).index ≡ i

abbrev pub back : Queue → ℕ → Record
back q i = q.records ((q.write_point + q.num - i) % q.num)

-- All slots, the newest first.
abbrev pub history : Queue → List Record
history q = collect (back q) 0 q.num

-- The record that a write leaves in the slot `w`.
abbrev pub written : List ℕ → List ℕ → List ℕ → ℕ → Record
written bytes ip now w = record {
  create_date = now;
  remote_ip = ip;
  ack = 0;
  index = w;
  body = bytes;
}

-- The slots behind the new write pointer are those behind the old one, a step later.
back_step :
    {w n : ℕ} (i : ℕ) → w < n → suc i < n → ((w + 1) % n + n - (i + 1)) % n ≡ (w + n - i) % n
back_step {w} {n} i h k = omega (
  arith,
  mod_once (w + 1) n (omega arith),
  mod_once ((w + 1) % n + n - (i + 1)) n (omega arith),
  mod_once (w + n - i) n (omega arith),
)

back_ne : {w n : ℕ} (i : ℕ) → w < n → suc i < n → (w + n - i) % n ≢ (w + 1) % n
back_ne {w} {n} i h k =
    omega (arith, mod_once (w + 1) n (omega arith), mod_once (w + n - i) n (omega arith))

pub back_zero : {w n : ℕ} → w < n → ((w + 1) % n + n - 0) % n ≡ (w + 1) % n
back_zero {w} {n} h =
    omega (arith, mod_once (w + 1) n (omega arith), mod_once ((w + 1) % n + n - 0) n (omega arith))

module _ {q : Queue} (bytes : List ℕ) (ip : Option (List ℕ)) (now : List ℕ) (v : IsHistory q)
    (e : length bytes ≡ q.size) (fits : length (ip_of ip) < 16) where
  abbrev pub q' : Queue
  q' = put_record q bytes (length bytes) (ip_of ip) now

  pub write_puts : write_q q bytes (length bytes) ip now ≡ (done tt, q')
  unfolding write_q write_size write_sized
  write_puts = ground (arith, v.binary, v.shift)

  pub put_keeps :
      (q'.num ≡ q.num) × (q'.write_point ≡ (q.write_point + 1) % q.num) × (q'.read_point ≡ 1)
  unfolding put_record
  put_keeps = ground (arith, v.shift)

  pub put_size : q'.size ≡ q.size
  unfolding put_record
  put_size = refl

  put_new :
      q'.records ((q.write_point + 1) % q.num)
      ≡ written bytes (ip_of ip) now ((q.write_point + 1) % q.num)
  unfolding put_record stamp
  put_new = ground (
    arith,
    v.labels ((q.write_point + 1) % q.num),
    stored_body bytes (q.records ((q.write_point + 1) % q.num)).body
        (e ∙ sym (v.bodies ((q.write_point + 1) % q.num))),
  )

  put_old : (j : ℕ) → j ≢ (q.write_point + 1) % q.num → q'.records j ≡ q.records j
  unfolding put_record
  put_old j ne = ground arith

  pub put-IsHistory : IsHistory q'
  unfolding put_record stamp
  put-IsHistory = record {
    shift = ground (arith, v.shift);
    binary = v.binary;
    bodies = λ i. ground (
      arith,
      v.bodies i,
      ap length (
          stored_body bytes (q.records ((q.write_point + 1) % q.num)).body
            (e ∙ sym (v.bodies ((q.write_point + 1) % q.num)))),
    );
    labels = λ i. ground (arith, v.labels i, v.labels ((q.write_point + 1) % q.num));
  }

  back-put_zero : back q' 0 ≡ written bytes (ip_of ip) now ((q.write_point + 1) % q.num)
  back-put_zero =
      rw (put_keeps.0, put_keeps.1) (ap q'.records (back_zero v.shift.write_in) ∙ put_new)

  back-put_suc : (k : ℕ) → suc k < q.num → back q' (k + 1) ≡ back q k
  back-put_suc k lt =
      rw (put_keeps.0, put_keeps.1)
        (ap q'.records (back_step k v.shift.write_in lt)
          ∙ put_old ((q.write_point + q.num - k) % q.num) (back_ne k v.shift.write_in lt))

  pub history-put :
      history q'
      ≡ written bytes (ip_of ip) now ((q.write_point + 1) % q.num) ∷ take (q.num - 1) (history q)
  history-put =
      let n : q'.num ≡ suc (q.num - 1) = omega (arith, put_keeps, v.shift) in
      let m : min (q.num - 1) q.num ≡ q.num - 1 = omega arith in
      ap (collect (back q') 0) n
      ∙ collect-cons (back q') 0 (q.num - 1)
      ∙ ap₂ ◌∷◌ back-put_zero (
          collect-ext (λ k. back q' (k + 1)) (back q) 0 (q.num - 1)
            (λ k _ lt. back-put_suc k (omega arith)))
      ∙ ap (λ t. written bytes (ip_of ip) now ((q.write_point + 1) % q.num) ∷ t)
          (sym (take-collect (back q) 0 q.num (q.num - 1) ∙ ap (collect (back q) 0) m))

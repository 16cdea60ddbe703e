-- ===== src/Vector/Bytes.antt =====
-- The bytes of a vector behind vector_push.
use native.Mathlib.Nat.{mul-le-mul_right}
use balrog_os.Prelude.{
  ℕ, ◌≢◌, ◌+◌, ◌*◌, ◌≤◌, ◌<◌, ◌≡◌, refl, ◌⊎◌, inl, inr, arith, ltb, ◌==◌, pos, minus_one,
  Bool-cases, ◌∙◌,
}
use balrog_os.Memory.{Memory, memcpy}
use balrog_os.Memory.Blocks.{memcpy-copied}
use balrog_os.Vector.{Vector, Result, wider, append, vector_push, vector_grow}

-- The bytes in use.
abbrev pub used : Vector → ℕ
used v = v.current_size * v.data_size

-- A vector as the calls keep it: `IsBuffer a n` says that vmalloc has given `n` bytes at `a`.
pub record Fit (IsBuffer : (a n : ℕ) → Type 0) (v : Vector) : Type 0 where
  pub sized : v.mem_size ≡ v.max_size * v.data_size
  pub filled : v.current_size ≤ v.max_size
  pub growing : 0 < v.growth
  pub held : IsBuffer v.data_at v.mem_size

-- The new element is the last, and every other one is as it was in `v` and `m`; no byte outside the
-- buffer has changed, and the vector is as the calls keep it.
pub record Pushed (IsBuffer : (a n : ℕ) → Type 0) (v : Vector) (m : Memory) (source : ℕ)
    (r : Result) : Type 0 where
  pub done : r.0 ≡ pos 0
  pub counted : r.1.current_size ≡ v.current_size + 1
  pub same_size : r.1.data_size ≡ v.data_size
  pub kept : (x : ℕ) → x < used v → r.2 (r.1.data_at + x) ≡ m (v.data_at + x)
  pub last : (x : ℕ) → x < v.data_size → r.2 (r.1.data_at + used v + x) ≡ m (source + x)
  pub outside : (x : ℕ) → (x < r.1.data_at) ⊎ (r.1.data_at + r.1.mem_size ≤ x) → r.2 x ≡ m x
  pub fits : Fit IsBuffer r.1

-- Where a push leaves the buffer.
append_at :
    (source : ℕ) (v : Vector) (m : Memory) {x : ℕ}
    → (x < (append source v m).1.data_at)
      ⊎ ((append source v m).1.data_at + (append source v m).1.mem_size ≤ x)
    → (x < v.data_at) ⊎ (v.data_at + v.mem_size ≤ x)
unfolding append
append_at source v m out = out

room_for_one :
    (v : Vector)
    → v.mem_size ≡ v.max_size * v.data_size
    → v.current_size < v.max_size
    → used v + v.data_size ≤ v.mem_size
room_for_one v sized less =
    let most : v.current_size + 1 ≤ v.max_size = omega arith in
    let le : (v.current_size + 1) * v.data_size ≤ v.max_size * v.data_size =
      mul-le-mul_right v.data_size most in
    omega (arith, le, sized)

module _ (IsBuffer : (a n : ℕ) → Type 0) where
  append-Pushed :
      (v : Vector) (m : Memory) (source : ℕ)
      → Fit IsBuffer v
      → v.current_size < v.max_size
      → (v.data_at + used v ≤ source) ⊎ (source + v.data_size ≤ v.data_at + used v)
      → Pushed IsBuffer v m source (append source v m)
  append-Pushed v m source fit less apart =
      let copy = (memcpy-copied m (v.data_at + used v) source v.data_size apart).0 in
      let inner = room_for_one v fit.sized less in
      record {
        done = unfold append in refl;
        counted = unfold append in refl;
        same_size = unfold append in refl;
        kept = λ x l. unfold append in ground (arith, copy (v.data_at + x));
        last = λ x l. unfold append in ground (arith, copy (v.data_at + used v + x));
        outside = λ x out. unfold append in ground (arith, copy x, inner, out);
        fits =
            unfold append in
            record {
              sized = fit.sized;
              filled = omega (arith, less);
              growing = fit.growing;
              held = fit.held;
            };
      }

  -- Nothing of the source or of the vector is lost when the bytes of `v` are copied to `room`.
  module _ (vmalloc : ℕ → ℕ) (given : (n : ℕ) → vmalloc n ≢ 0 → IsBuffer (vmalloc n) n) (v : Vector)
      (m : Memory) (source : ℕ) (fit : Fit IsBuffer v) where
    abbrev pub room : ℕ
    room = vmalloc (v.mem_size + v.growth * v.data_size)

    wider-Fit : room ≢ 0 → Fit IsBuffer (wider room v)
    wider-Fit there = record {
      sized = omega (arith, fit.sized);
      filled = omega (arith, fit.filled);
      growing = fit.growing;
      held = given (v.mem_size + v.growth * v.data_size) there;
    }

    whole : used v ≤ v.mem_size
    whole =
        let le : v.current_size * v.data_size ≤ v.max_size * v.data_size =
          mul-le-mul_right v.data_size fit.filled in
        omega (arith, le, fit.sized)

    module _ (fresh : (room ≤ v.data_at) ⊎ (v.data_at + v.mem_size ≤ room))
        (apart : (source + v.data_size ≤ room) ⊎ (room + v.mem_size ≤ source))
        (behind : (room + used v ≤ source) ⊎ (source + v.data_size ≤ room + used v)) where
      grown-Pushed :
          room ≢ 0
          → Pushed IsBuffer v m source
              (append source (wider room v) ((memcpy m room v.data_at v.mem_size).0))
      grown-Pushed there =
          let copy = (memcpy-copied m room v.data_at v.mem_size fresh).0 in
          let step =
            append-Pushed (wider room v) ((memcpy m room v.data_at v.mem_size).0) source
              (wider-Fit there) (omega (arith, fit.filled, fit.growing)) behind in
          let all = whole in
          record {
            done = step.done;
            counted = step.counted;
            same_size = step.same_size;
            kept = λ x l. step.kept x l ∙ ground (arith, copy (room + x), all);
            last = λ x l. step.last x l ∙ ground (arith, copy (source + x));
            outside = λ x out.
                step.outside x out ∙ ground (arith, copy x, append_at source (wider room v) _ out);
            fits = step.fits;
          }

      -- On a vector whose buffer has room for its capacity, and that grows by at least one element, with
      -- a source that neither the growth nor the new element writes before it is read, and a vmalloc
      -- that gives the bytes asked for, outside the old buffer, or nothing, vector_push makes the new
      -- element the last and keeps every other one, wherever the vector then stands. It writes inside
      -- the buffer alone, and the buffer has room for the capacity again. Or the vector is full, vmalloc
      -- has nothing, and -1 is returned with nothing changed.
      pub vector_push-Pushed :
          (v.data_at + used v ≤ source) ⊎ (source + v.data_size ≤ v.data_at + used v)
          → Pushed IsBuffer v m source (vector_push vmalloc source v m)
            ⊎ ((room ≡ 0)
                × (v.current_size ≡ v.max_size)
                × (vector_push vmalloc source v m ≡ (minus_one, v, m)))
      unfolding vector_push vector_grow
      vector_push-Pushed here = elim (Bool-cases (ltb v.max_size (v.current_size + 1))) [
        | inr fits ↦
            let less : v.current_size < v.max_size = ground arith in
            inl (rw fits (append-Pushed v m source fit less here))
        | inl full ↦ elim (Bool-cases (room == 0)) [
          | inl none_left ↦
              let at_end : v.current_size ≡ v.max_size = ground (arith, fit.filled) in
              inr (ground arith, at_end, rw (full, none_left) refl)
          | inr there ↦
              let some_room : room ≢ 0 = ground arith in
              inl (rw (full, there) (grown-Pushed some_room))
        ]
      ]

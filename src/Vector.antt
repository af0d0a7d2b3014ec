-- ===== src/Vector.antt =====
-- src/lib/vector.h: an array of elements that grows.
--
-- The buffer is the list of its `cap` elements. An allocation returns (it aborts the program when it
-- fails) and gives zeroed memory, whose element is `blank`; a reallocation keeps what the block holds.
-- `none` is a failed assertion or an abort. A buffer is never NULL here.
pub mod Takes
pub mod Laws
use lemon.Base.{
  ℕ, ◌+◌, ◌-◌, ◌*◌, ◌/◌, ◌≤◌, ◌<◌, ◌≡◌, Bool, true, false, ◌&&◌, Option, none, some, List, ◌++◌,
  ltb, leb, ◌==◌, if◌then◌else◌, get_or, set, replicate, length, size_max,
}

-- `VectorGrow`
unfoldable pub vector_grow : ℕ → ℕ
vector_grow curr_capacity =
    if curr_capacity == 0
    then 1
    else if leb (size_max / 2) curr_capacity
    then size_max
    else curr_capacity * 2

-- `struct pfix_vector`
pub record Vector {ℓ} (T : Type ℓ) : Type ℓ where
  pub len : ℕ
  pub cap : ℕ
  pub buffer : List T

module _ {ℓ} {T : Type ℓ} where
  unfoldable pub write_back : T → Vector T → Vector T
  write_back datum v = record v { len = v.len + 1; buffer = set v.buffer v.len datum }

  unfoldable pub shorten : Vector T → Option T → Option (T × Vector T)
  shorten v none = none
  shorten v (some top) = some (top, record v { len = v.len - 1 })

  -- `VectorReset`
  unfoldable pub vector_reset : Vector T → Option (Vector T)
  vector_reset v = if leb v.len v.cap then some (record v { len = 0 }) else none

module _ {ℓ} {T : Type ℓ} (blank : T) where
  -- `VectorInit`
  unfoldable pub vector_init : ℕ → ℕ → Option (Vector T)
  vector_init n c =
      if leb n c then some (record { len = n; cap = c; buffer = replicate c blank }) else none

  -- the reallocation of `VectorPush`
  unfoldable pub enlarge : Vector T → Vector T
  enlarge v = record v {
    cap = vector_grow v.cap;
    buffer = v.buffer ++ replicate (vector_grow v.cap - v.cap) blank;
  }

  -- `VectorPush`
  unfoldable pub vector_push : Vector T → T → Option (Vector T)
  vector_push v datum =
      if leb v.len v.cap
      then if v.len == size_max
        then none
        else some (write_back datum (if v.len == v.cap then enlarge v else v))
      else none

  -- `VectorGet`
  unfoldable pub vector_get : Vector T → ℕ → Option T
  vector_get v index =
      if leb v.len v.cap && ltb index v.len then some (get_or v.buffer index blank) else none

  -- `VectorSet`, with the element that it returns
  unfoldable pub vector_set : Vector T → ℕ → T → Option (T × Vector T)
  vector_set v index datum =
      if leb v.len v.cap && ltb index v.len
      then some (get_or v.buffer index blank, record v { buffer = set v.buffer index datum })
      else none

  -- `VectorPop`; the index before 0 wraps round
  unfoldable pub vector_pop : Vector T → Option (T × Vector T)
  vector_pop v = shorten v (vector_get v (if v.len == 0 then size_max else v.len - 1))

-- all that these operations compute with
unfoldable pub running : Unit {0}
unfolding vector_grow write_back shorten vector_reset vector_init enlarge vector_push vector_get
    vector_set vector_pop
running = tt

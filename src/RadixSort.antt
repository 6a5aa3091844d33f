-- ===== src/RadixSort.antt =====
-- foundation/radixsort.c. Items are the bit patterns of their values, and `radixsort_index_t` has 16
-- bits. The two index tables, the histogram of each pass and the offset table are lists.
pub mod Buckets
pub mod Scatter
pub mod Ranks
pub mod Totals
pub mod Places
pub mod Offsets
pub mod Histograms
pub mod Presorted
pub mod Distribute
pub mod Orders
pub mod Values
pub mod Ready
pub mod Create
pub mod Pass
pub mod Passes
pub mod LastPass
pub mod Sort
mod Tests
use mathlib.Core.List.{reverse}
use foundation_lib.Prelude.{
  ℕ, zero, suc, ◌+◌, ◌-◌, ◌*◌, ◌/◌, ◌%◌, ◌^◌, ◌≤◌, ◌<◌, min, max, ◌≡◌, refl, sym, ap, ap₂, ◌∙◌, ◌≢◌,
  ◌↔◌, ◌⊎◌, inl, inr, Bool, true, false, not, ◌&&◌, ◌||◌, Option, none, some, List, [], ◌∷◌, ◌++◌,
  map, append_assoc, append-nil, arith, dec_lt, ℕ_discrete, ltb, leb, ◌==◌, if◌then◌else◌, ltb→lt,
  lt→ltb, leb→le, ==_iff, tests, Bool-cases, Option-cases, length, get_elem?, length-append,
  length-set, get_elem?-set_self, get_elem?-set_ne, get_or, take, drop, replicate, take-append-drop,
  length-take, length-drop, length-replicate, length-map, slice, overwrite, length-overwrite,
  take-append_le, take-append_ge, drop-append_le, drop-append_ge, take_all, drop_all, drop-nil,
  take-nil, drop-drop, take-take, drop-take, take-add, take-overwrite, drop-overwrite_end,
  drop-overwrite_ge, drop-overwrite_le, slice-overwrite, take-eq_nil, take-overwrite-max,
  overwrite-nil, drop-overwrite_self, get_or-set_self, get_or-set_ne, get_or-replicate,
  take-set_end, add64, sub64, add32, sub32, set,
}

-- `radixsort_data_t`.
pub data DataType : Type 0 where
  int32 uint32 int64 uint64 float32 float64 : DataType

-- `_radixsort_data_size`.
abbrev pub data_size : DataType → ℕ
data_size int32 = 4
data_size uint32 = 4
data_size int64 = 8
data_size uint64 = 8
data_size float32 = 4
data_size float64 = 8

-- `_radixsort_data_signed`.
abbrev pub data_signed : DataType → Bool
data_signed int32 = true
data_signed uint32 = false
data_signed int64 = true
data_signed uint64 = false
data_signed float32 = true
data_signed float64 = true

abbrev pub is_float : DataType → Bool
is_float float32 = true
is_float float64 = true
is_float _ = false

-- `radixsort_t`; `indices_next` is `indices[1]`.
pub record Radixsort : Type 0 where
  pub data_type : DataType
  pub size : ℕ
  pub lastused : ℕ
  pub indices : List ℕ
  pub indices_next : List ℕ
  pub histogram : List (List ℕ)
  pub offset : List ℕ

abbrev pub half : DataType → ℕ
half float32 = 2 ^ 31
half int32 = 2 ^ 31
half uint32 = 2 ^ 31
half _ = 2 ^ 63

-- The places of signed numbers, and of floating point numbers, in their order: two's complement, and
-- sign and magnitude with one zero.
abbrev pub signed_order : (half v : ℕ) → ℕ
signed_order half v = if ltb v half then v + half else v - half

abbrev pub float_order : (half v : ℕ) → ℕ
float_order half v = if ltb v half then v + half else half - (v - half)

abbrev pub order : DataType → ℕ → ℕ
order int32 v = signed_order (2 ^ 31) v
order uint32 v = v
order int64 v = signed_order (2 ^ 63) v
order uint64 v = v
order float32 v = float_order (2 ^ 31) v
order float64 v = float_order (2 ^ 63) v

-- `NaN`, which is not below anything.
abbrev pub is_nan : DataType → ℕ → Bool
is_nan float32 v = ltb 0x7f800000 (v % 2 ^ 31)
is_nan float64 v = ltb 0x7ff0000000000000 (v % 2 ^ 63)
is_nan _ v = false

-- `<` on values of a type.
unfoldable pub less : DataType → ℕ → ℕ → Bool
less t a b = not (is_nan t a || is_nan t b) && ltb (order t a) (order t b)

-- Byte `p` of a value, the lowest first.
unfoldable pub byte : (p v : ℕ) → ℕ
byte zero v = v % 256
byte (suc p) v = byte p (v / 256)

abbrev pub increment : ℕ → ℕ
increment n = (n + 1) % 2 ^ 16

-- The bytes of a value are counted, each in the histogram of its pass.
unfoldable pub count_value : List (List ℕ) → ℕ → List (List ℕ)
count_value [] v = []
count_value (h ∷ hs) v =
    set h (v % 256) (increment (get_or h (v % 256) 0)) ∷ count_value hs (v / 256)

-- The loop without checks.
unfoldable pub count_values : List (List ℕ) → List ℕ → List (List ℕ)
unfolding count_value
count_values hs [] = hs
count_values hs (v ∷ loop) = count_values (count_value hs v) loop

-- The loop that goes through the values in their last order. It ends with the histograms and with what
-- is left of the items to count: nothing, if they are in order.
unfoldable pub presorted :
    (t : DataType) (input : List ℕ) (prev_val : ℕ) (hs : List (List ℕ)) (loop indices : List ℕ)
    → List (List ℕ) × List ℕ
unfolding less count_value
presorted t input prev_val hs [] indices = (hs, [])
presorted t input prev_val hs (v ∷ loop) [] = (hs, v ∷ loop)
presorted t input prev_val hs (v ∷ loop) (i ∷ indices) =
    let val = get_or input i 0 in
    let rest = presorted t input val (count_value hs v) loop indices in
    if leb (length input) i || less t val prev_val then (hs, v ∷ loop) else rest

-- The numbers from `i` on, `n` of them.
abbrev pub indices_from : (i n : ℕ) → List ℕ
indices_from i zero = []
indices_from i (suc n) = i ∷ indices_from (i + 1) n

abbrev pub no_counts : DataType → List (List ℕ)
no_counts t = replicate (data_size t) (replicate 256 0)

-- `radixsort_create_histograms`; whether the items are in their last order.
unfoldable pub create_histograms : Radixsort → List ℕ → Bool × Radixsort
unfolding presorted count_values
create_histograms sort input =
    let num = length input in
    let t = sort.data_type in
    let (hs, loop) =
      if leb num sort.lastused
      then presorted t input (get_or input 0 0) (no_counts t) input sort.indices
      else (no_counts t, input) in
    if length loop == 0
    then (true, record sort { histogram = hs })
    else if num == sort.lastused
    then (false, record sort { histogram = count_values hs loop })
    else (
      false,
      record sort {
        histogram = count_values hs loop;
        indices = overwrite sort.indices 0 (indices_from 0 num);
        indices_next = overwrite sort.indices_next 0 (indices_from 0 num);
      },
    )

-- The sum of counts.
unfoldable pub add_counts : ℕ → List ℕ → ℕ
add_counts n [] = n
add_counts n (c ∷ cs) = add_counts ((n + c) % 2 ^ 16) cs

-- Offsets from `prev` on, each less the counts from its own on.
unfoldable pub offsets : ℕ → List ℕ → List ℕ
offsets prev [] = []
offsets prev (c ∷ cs) = prev ∷ offsets ((prev + c) % 2 ^ 16) cs

-- Offsets from the last to the first, each with its own count.
unfoldable pub offsets_back : List ℕ → List ℕ
offsets_back [] = []
offsets_back (c ∷ cs) = (get_or (offsets_back cs) 0 0 + c) % 2 ^ 16 ∷ offsets_back cs

-- The offsets of a pass: unsigned bytes, signed bytes, and signed bytes with the negative ones reversed.
unfoldable pub unsigned_offsets : List ℕ → List ℕ
unfolding offsets
unsigned_offsets count = offsets 0 count

unfoldable pub signed_offsets : List ℕ → List ℕ
unfolding offsets add_counts
signed_offsets count =
    let negatives = add_counts 0 (drop 128 count) in
    offsets negatives (take 128 count) ++ offsets 0 (drop 128 count)

unfoldable pub float_offsets : List ℕ → List ℕ
unfolding offsets offsets_back add_counts
float_offsets count =
    let negatives = add_counts 0 (drop 128 count) in
    offsets negatives (take 128 count) ++ offsets_back (drop 128 count)

-- The loop of a pass over the indices: each goes where the offset of its byte says. Where `down` holds
-- of the byte, the offset goes down before the index is stored, and else up behind it.
unfoldable pub scatter :
    (down : ℕ → Bool) (digit : ℕ → ℕ) (offset next ids : List ℕ) → List ℕ × List ℕ
scatter down digit offset next [] = (offset, next)
scatter down digit offset next (id ∷ ids) =
    let radix = digit id in
    let o = get_or offset radix 0 in
    let o' = if down radix then (o + 2 ^ 16 - 1) % 2 ^ 16 else increment o in
    let place = if down radix then o' else o in
    scatter down digit (set offset radix o') (set next place id) ids

-- The byte of a pass, of the value at an index.
abbrev pub byte_at : List ℕ → (p id : ℕ) → ℕ
byte_at input p id = byte p (get_or input id 0)

-- A pass goes over the indices with its offsets, and the two index tables change places.
unfoldable pub distribute :
    (down : ℕ → Bool) (input : List ℕ) (p : ℕ) (table : List ℕ) → Radixsort → Radixsort
unfolding scatter byte
distribute down input p table sort =
    let (offset, next) =
      scatter down (byte_at input p) table sort.indices_next (take (length input) sort.indices) in
    record sort { indices = next; indices_next = sort.indices; offset = offset }

-- Whether the items have one byte in common in this pass.
abbrev pub is_unique : List ℕ → (p : ℕ) → Radixsort → Bool
is_unique input p sort = get_or (get_or sort.histogram p []) (byte_at input p 0) 0 == length input

unfoldable pub never : ℕ → Bool
never b = false

-- A pass of `radixsort_int`.
unfoldable pub pass_int : List ℕ → (p : ℕ) → Radixsort → Radixsort
unfolding distribute unsigned_offsets signed_offsets never byte
pass_int input p sort =
    let count = get_or sort.histogram p [] in
    if is_unique input p sort
    then sort
    else if not (p == data_size sort.data_type - 1) || not (data_signed sort.data_type)
    then distribute never input p (unsigned_offsets count) sort
    else distribute never input p (signed_offsets count) sort

-- A pass of `radixsort_float`.
unfoldable pub pass_float : List ℕ → (p : ℕ) → Radixsort → Radixsort
unfolding distribute unsigned_offsets float_offsets never byte
pass_float input p sort =
    let count = get_or sort.histogram p [] in
    if not (p == data_size sort.data_type - 1)
    then (if is_unique input p sort
        then sort
        else distribute never input p (unsigned_offsets count) sort)
    else if not (is_unique input p sort)
    then distribute (leb 128) input p (float_offsets count) sort
    else if leb 128 (byte_at input p 0)
    then record sort {
      indices = overwrite sort.indices_next 0 (reverse (take (length input) sort.indices));
      indices_next = sort.indices;
    }
    else sort

-- The passes from `p` on, `n` of them.
unfoldable pub passes : (pass : ℕ → Radixsort → Radixsort) (n p : ℕ) → Radixsort → Radixsort
passes pass zero p sort = sort
passes pass (suc n) p sort = passes pass n (p + 1) (pass p sort)

-- `radixsort_int` and `radixsort_float`.
unfoldable pub radixsort_by : (pass : ℕ → Radixsort → Radixsort) → Radixsort → List ℕ → Radixsort
unfolding create_histograms passes
radixsort_by pass sort input =
    if length input == 0
    then sort
    else (let (sorted, sort') = create_histograms sort input in
        if sorted then sort' else passes pass (data_size sort.data_type) 0 sort')

unfoldable pub radixsort_int : Radixsort → List ℕ → Radixsort
unfolding radixsort_by pass_int
radixsort_int sort input = radixsort_by (pass_int input) sort input

unfoldable pub radixsort_float : Radixsort → List ℕ → Radixsort
unfolding radixsort_by pass_float
radixsort_float sort input = radixsort_by (pass_float input) sort input

-- `radixsort_sort`; the result is the first of the indices.
unfoldable pub radixsort_sort : Radixsort → List ℕ → Radixsort
unfolding radixsort_int radixsort_float
radixsort_sort sort input =
    let sorted =
      if is_float sort.data_type then radixsort_float sort input else radixsort_int sort input in
    record sorted { lastused = length input }

abbrev pub result : Radixsort → List ℕ
result sort = take sort.lastused sort.indices

-- `radixsort_initialize`.
unfoldable pub initialize : Radixsort → DataType → (num : ℕ) → Radixsort
initialize sort t num = record sort {
  data_type = t;
  size = num;
  lastused = num;
  indices = overwrite sort.indices 0 (indices_from 0 num);
  indices_next = overwrite sort.indices_next 0 (indices_from 0 num);
}

-- ===== src/Kpp/CString.antt =====
-- The memory and string functions of kernel/lib/kpp/string. Memory is a function from addresses to
-- bytes, and the arrays lie within the address space, so `dst + i` does not wrap. Characters compare
-- as numbers below 128. The `size_t i` loops are counted; `strlen` runs on fuel.
pub mod Copy
pub mod Compare
use dav_os.Base.{ℕ, zero, suc, ◌+◌, ◌-◌, ◌%◌, Bool, true, false, ltb, ◌==◌, if◌then◌else◌}
use dav_os.Base.Int.{ℤ, pos, negsuc}
use dav_os.Base.Run.{Run, ok, out_of_fuel}

abbrev pub Bytes : Type 0
Bytes = ℕ → ℕ

abbrev pub put : ℕ → ℕ → Bytes → Bytes
put a c mem x = if x == a then c else mem x

-- `for (i = from; ...; i++) dst[i] = src[i]`, `count` rounds.
pub copy_up : ℕ → ℕ → ℕ → ℕ → Bytes → Bytes
copy_up zero from dst src mem = mem
copy_up (suc count) from dst src mem =
    copy_up count (suc from) dst src (put (dst + from) (mem (src + from)) mem)

-- `for (i = size; i != 0; i--) dst[i - 1] = src[i - 1]`.
pub copy_down : ℕ → ℕ → ℕ → Bytes → Bytes
copy_down zero dst src mem = mem
copy_down (suc i) dst src mem = copy_down i dst src (put (dst + i) (mem (src + i)) mem)

pub memcpy : ℕ → ℕ → ℕ → Bytes → Bytes
memcpy dst src size mem = copy_up size 0 dst src mem

pub memmove : ℕ → ℕ → ℕ → Bytes → Bytes
memmove dst src size mem =
    if ltb dst src then copy_up size 0 dst src mem else copy_down size dst src mem

unfoldable pub fill : ℕ → ℕ → ℕ → ℕ → Bytes → Bytes
fill zero from buf value mem = mem
fill (suc count) from buf value mem = fill count (suc from) buf value (put (buf + from) value mem)

-- `(unsigned char)value`
unfoldable pub memset : ℕ → ℕ → ℕ → Bytes → Bytes
memset buf value size mem = fill size 0 buf (value % 256) mem

unfoldable pub compare_from : ℕ → ℕ → ℕ → ℕ → Bytes → ℤ
compare_from zero i a b mem = pos 0
compare_from (suc count) i a b mem =
    let rest = compare_from count (suc i) a b mem in
    if ltb (mem (a + i)) (mem (b + i))
    then negsuc 0
    else if ltb (mem (b + i)) (mem (a + i))
    then pos 1
    else rest

unfoldable pub memcmp : ℕ → ℕ → ℕ → Bytes → ℤ
memcmp a b size mem = compare_from size 0 a b mem

-- The difference of two characters, as an `int`.
unfoldable pub difference : ℕ → ℕ → ℤ
difference x y = if ltb x y then negsuc (y - x - 1) else pos (x - y)

unfoldable pub strncmp_from : ℕ → ℕ → ℕ → ℕ → Bytes → ℤ
strncmp_from zero i a b mem = pos 0
strncmp_from (suc count) i a b mem =
    let rest = strncmp_from count (suc i) a b mem in
    if mem (a + i) == mem (b + i) then rest else difference (mem (a + i)) (mem (b + i))

unfoldable pub strncmp : ℕ → ℕ → ℕ → Bytes → ℤ
strncmp a b size mem = strncmp_from size 0 a b mem

pub strlen_from : ℕ → ℕ → ℕ → Bytes → Run ℕ
strlen_from zero str len mem = out_of_fuel
strlen_from (suc fuel) str len mem =
    let rest = strlen_from fuel str (suc len) mem in if mem (str + len) == 0 then ok len else rest

pub strlen : ℕ → ℕ → Bytes → Run ℕ
strlen fuel str mem = strlen_from fuel str 0 mem

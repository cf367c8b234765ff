-- ===== src/Files/Record.antt =====
-- stdio_example.c: a struct is written to a file and read back from it.
pub mod Stored
pub mod Laws
mod Tests
use linux_system_programming.Prelude.{
  ℕ, zero, suc, ◌+◌, ◌-◌, ◌*◌, ◌/◌, ◌%◌, ◌^◌, ℤ, pos, negsuc, minus_one, is_zero, not, List, [],
  ◌∷◌, ◌++◌, none, some, ltb, if◌then◌else◌, String, take, drop,
}
use linux_system_programming.Sys.{
  Reply, num, str, Prog, ret, halt, print, call, ◌>>=◌, ◌>>◌, sys, printf, perror, exit, when,
  undefined, err, out,
}
use linux_system_programming.Libc.{c_string, overlay, codes}

-- FILENAME is "./data.file".
pub data Call : Type 0 where
  fopen_write : Call  -- fopen (FILENAME, "wb")
  fwrite : (bytes : List ℕ) → Call  -- one element of that many bytes
  fopen_read : Call  -- fopen (FILENAME, "rb")
  fread : (size : ℕ) → Call
  fclose : Call

-- struct address_info, its char arrays byte by byte; the index is below 2 ^ 32.
pub record AddressInfo : Type 0 where
  pub index : ℕ
  pub name : List ℕ
  pub phone_number : List ℕ
  pub address : List ℕ

-- sizeof (struct address_info): 4 + 32 + 16 + 100, with no padding
abbrev pub info_size : ℕ
info_size = 152

-- The bytes of an unsigned int of a little-endian machine.
unfoldable pub put_u32 : ℕ → List ℕ
put_u32 n = n % 256 ∷ n / 256 % 256 ∷ n / 65536 % 256 ∷ n / 16777216 % 256 ∷ []

unfoldable pub get_u32 : List ℕ → ℕ
get_u32 (a ∷ b ∷ c ∷ d ∷ _) = a + 256 * b + 65536 * c + 16777216 * d
get_u32 _ = 0

-- The struct as memory, and memory as the struct.
unfoldable pub bytes_of : AddressInfo → List ℕ
bytes_of i = put_u32 i.index ++ (i.name ++ (i.phone_number ++ i.address))

unfoldable pub info_of : List ℕ → AddressInfo
info_of b = record {
  index = get_u32 b;
  name = take 32 (drop 4 b);
  phone_number = take 16 (drop 36 b);
  address = take 100 (drop 52 b);
}

-- An unsigned int that is printed by %d.
unfoldable pub signed32 : ℕ → ℤ
signed32 n = if ltb n (2 ^ 31) then pos n else negsuc (2 ^ 32 - n - 1)

-- printf (format, field)
abbrev pub show_field : String → List ℕ → Prog Call Reply (Unit {0})
show_field format field = elim (c_string field) [
  | none ↦ halt undefined
  | some t ↦ printf format (str t ∷ [])
]

-- The four lines about `who`.
unfoldable pub show_info : AddressInfo → Prog Call Reply (Unit {0})
show_info who = do
  printf "index: %d\n" (num (signed32 who.index) ∷ [])
  show_field "name: %s\n" who.name
  show_field "phone number: %s\n" who.phone_number
  show_field "address: %s\n" who.address

-- `kim` behind its assignments: sprintf leaves what stood behind the NUL.
unfoldable pub filled : AddressInfo → AddressInfo
filled kim = record {
  index = 1;
  name = overlay (codes "Kim" ++ (0 ∷ [])) kim.name;
  phone_number = overlay (codes "010-1234-5678" ++ (0 ∷ [])) kim.phone_number;
  address = overlay (codes "Seoul" ++ (0 ∷ [])) kim.address;
}

-- `kim` is what the uninitialised struct holds.
unfoldable pub main : AddressInfo → Prog Call Reply (Unit {0})
main kim = do
  writefile ← sys fopen_write
  when (is_zero writefile.ret) do perror "fopen error : "; exit minus_one
  w ← sys (fwrite (bytes_of (filled kim)))
  when (is_zero w.ret) do perror "fwriteerror: "; exit minus_one
  c ← sys fclose
  when (not (is_zero c.ret)) do perror "fcloseerror: "; exit minus_one
  readfile ← sys fopen_read
  when (is_zero readfile.ret) do perror "fopenerror: "; exit minus_one
  r ← sys (fread info_size)
  when (is_zero r.ret) do perror "freaderror: "; exit minus_one
  d ← sys fclose
  when (not (is_zero d.ret)) do perror "fcloseerror: "; exit minus_one
  show_info (info_of r.text)
  exit (pos 0)

-- ===== src/Files/Record/Laws.antt =====
-- stdio_example.c: what is written is read back.
use linux_system_programming.Prelude.{
  ℕ, zero, suc, ◌+◌, ◌*◌, ◌/◌, ◌%◌, ◌^◌, ◌≤◌, ◌<◌, pos, minus_one, true, false, List, [], ◌∷◌, ◌++◌,
  some, ◌≡◌, refl, arith, ap, ◌∙◌, drop, length, leb, length-append, take-length, take-eq-append,
  length-drop,
}
use linux_system_programming.Sys.{num, str, out, err, halted, exited, run}
use linux_system_programming.Libc.{codes, c_string}
use linux_system_programming.Files.Record.{
  AddressInfo, info_size, put_u32, get_u32, bytes_of, info_of, signed32, show_info, filled, main,
}
use linux_system_programming.Files.Record.Stored.{Stored, stored}

-- The sizes of the fields.
abbrev pub IsSized : AddressInfo → Type 0
IsSized i =
    (i.index < 2 ^ 32)
    × (length i.name ≡ 32)
    × (length i.phone_number ≡ 16)
    × (length i.address ≡ 100)

length-bytes_of : (i : AddressInfo) → IsSized i → length (bytes_of i) ≡ info_size
unfolding bytes_of put_u32
length-bytes_of i (a, n, p, d) = omega (
  arith,
  length-append i.name (i.phone_number ++ i.address),
  length-append i.phone_number i.address,
)

drop-add_append : (n k : ℕ) (xs ys : List ℕ) → length xs ≡ n → drop (n + k) (xs ++ ys) ≡ drop k ys
drop-add_append zero k [] ys h = ap (λ j. drop j ys) (omega arith)
drop-add_append zero k (x ∷ xs) ys h = absurd (omega arith)
drop-add_append (suc n) k [] ys h = absurd (omega arith)
drop-add_append (suc n) k (x ∷ xs) ys h =
    let e : suc n + k ≡ suc (n + k) = omega arith in rw e (drop-add_append n k xs ys (omega arith))

-- The memory of a struct whose index is below 2 ^ 32 and whose arrays have their declared sizes is
-- read as the same struct.
pub info_of-bytes_of : (i : AddressInfo) → IsSized i → info_of (bytes_of i) ≡ i
unfolding info_of bytes_of put_u32 get_u32
info_of-bytes_of i (a, n, p, d) =
    let index : i.index % 256
          + 256 * (i.index / 256 % 256)
          + 65536 * (i.index / 65536 % 256)
          + 16777216 * (i.index / 16777216 % 256)
        ≡ i.index =
      omega arith in
    let name = take-eq-append 32 i.name (i.phone_number ++ i.address) n in
    let first = drop-add_append 32 0 i.name (i.phone_number ++ i.address) n in
    let phone = take-eq-append 16 i.phone_number i.address p in
    let second =
      drop-add_append 32 16 i.name (i.phone_number ++ i.address) n
      ∙ drop-add_append 16 0 i.phone_number i.address p in
    let address = take-length 100 i.address (omega arith) in
    rw (index, name, first, phone, second, address) refl

filled-IsSized : (kim : AddressInfo) → IsSized kim → IsSized (filled kim)
unfolding filled
filled-IsSized kim (a, n, p, d) = (
  omega arith,
  omega (arith, length-drop 4 kim.name),
  omega (arith, length-drop 14 kim.phone_number),
  omega (arith, length-drop 6 kim.address),
)

-- On a device with room for the struct the program prints what it filled in, whatever the memory of
-- its structs held and whatever the file was, leaves the 152 bytes of the struct in the file, and
-- returns 0.
pub main-shows :
    (kim : AddressInfo) (s : Stored)
    → IsSized kim
    → info_size ≤ s.room
    → let r = run stored (main kim) s in
      (r.result ≡ halted (exited (pos 0)))
      × (r.state.file ≡ some (bytes_of (filled kim)))
      × (r.lines
          ≡ out "index: %d\n" (num (pos 1) ∷ [])
            ∷ out "name: %s\n" (str (codes "Kim") ∷ [])
            ∷ out "phone number: %s\n" (str (codes "010-1234-5678") ∷ [])
            ∷ out "address: %s\n" (str (codes "Seoul") ∷ [])
            ∷ [])
unfolding main stored show_info filled c_string signed32 bytes_of put_u32
main-shows kim s h room =
    let l : length (bytes_of (filled kim)) ≡ 152 =
      length-bytes_of (filled kim) (filled-IsSized kim h) in
    let t : leb (length (bytes_of (filled kim))) s.room ≡ true = ground arith in
    let u : leb 152 (length (bytes_of (filled kim))) ≡ true = ground arith in
    let k = take-length 152 (bytes_of (filled kim)) (omega arith) in
    let b = info_of-bytes_of (filled kim) (filled-IsSized kim h) in
    rw t (rw u (rw k (rw b (refl, refl, refl))))

-- On a device with less room the program reports that the close failed, and returns -1.
pub main-full :
    (kim : AddressInfo) (s : Stored)
    → IsSized kim
    → s.room < info_size
    → let r = run stored (main kim) s in
      (r.result ≡ halted (exited minus_one)) × (r.lines ≡ err "fcloseerror: " ∷ [])
unfolding main stored bytes_of put_u32
main-full kim s h room =
    let l : length (bytes_of (filled kim)) ≡ 152 =
      length-bytes_of (filled kim) (filled-IsSized kim h) in
    let t : leb (length (bytes_of (filled kim))) s.room ≡ false = ground arith in rw t (refl, refl)

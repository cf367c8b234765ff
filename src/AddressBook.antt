-- ===== src/AddressBook.antt =====
-- malloc_example.c: an address book in memory that grows by realloc and is edited once.
pub mod Build
pub mod Print
mod Tests
use linux_system_programming.Prelude.{
  ℕ, zero, suc, ◌+◌, ◌-◌, ◌^◌, ℤ, pos, negsuc, minus_one, is_zero, is_nonpositive, pos_part, Bool,
  true, false, not, ◌&&◌, ◌||◌, List, [], ◌∷◌, ◌++◌, Option, none, some, ◌==◌, ltb, if◌then◌else◌,
  length, get_elem?, get_or, set, take, zeros, replicate, same_ℤ, String,
}
use linux_system_programming.Sys.{
  Arg, num, str, Line, out, Prog, ret, halt, print, call, ◌>>=◌, ◌>>◌, sys, sys_, printf, perror,
  exit, when, undefined,
}
use linux_system_programming.Libc.{c_string, overlay}

-- The user's input and the heap. `scan_text n` is scanf ("%s") into an array of `n` bytes.
pub data Call : Type 0 where
  scan_int : Call  -- scanf ("%d")
  scan_text : (size : ℕ) → Call
  calloc : (count : ℕ) → Call  -- of struct information; a null pointer on failure
  realloc : (count : ℕ) → Call
  free : Call

-- What a call returns; for scanf that is the number of its conversions, with the number or the word
-- that it read.
pub record Reply : Type 0 where
  pub ret : ℤ
  pub number : ℤ
  pub text : List ℕ

abbrev pub scanned : Reply → Bool
scanned r = same_ℤ r.ret (pos 1)

-- An int variable behind scanf: without a conversion it keeps what it held.
abbrev pub scanned_int : ℤ → Reply → ℤ
scanned_int old r = if scanned r then r.number else old

-- struct information, its char arrays byte by byte.
pub record Info : Type 0 where
  pub index : ℕ
  pub name : List ℕ  -- 32
  pub phone_number : List ℕ  -- 32
  pub mobile_number : List ℕ  -- 32
  pub address : List ℕ  -- 128

abbrev pub Book : Type 0
Book = List Info

-- What calloc and memset leave.
abbrev pub blank : Info
blank = record {
  index = 0;
  name = zeros 32;
  phone_number = zeros 32;
  mobile_number = zeros 32;
  address = zeros 128;
}

-- An array behind scanf ("%s", field): the word and a NUL, over what it held, and without a conversion
-- what it held. A word that does not fit runs over the array's end, which is undefined: `none`.
unfoldable pub scanned_text : ℕ → List ℕ → Reply → Option (List ℕ)
scanned_text size old r =
    if scanned r
    then (if ltb (length r.text) size then some (overlay (r.text ++ (0 ∷ [])) old) else none)
    else some old

unfoldable pub scan_field : ℕ → List ℕ → Prog Call Reply (List ℕ)
scan_field size old = do
  r ← sys (scan_text size)
  elim (scanned_text size old r) [ none ↦ halt undefined | some field ↦ ret field ]

-- The body of the loop of `input_person_information` on one element.
unfoldable pub input_one : ℕ → Info → Prog Call Reply Info
unfolding scan_field
input_one number old = do
  printf "\nInput %d person's information.\n" (num (pos number) ∷ [])
  printf "Input name: " []
  name ← scan_field 32 old.name
  printf "Input phone number: " []
  phone ← scan_field 32 old.phone_number
  printf "Input mobile number: " []
  mobile ← scan_field 32 old.mobile_number
  printf "Input address: " []
  address ← scan_field 128 old.address
  ret (record {
    index = number;
    name = name;
    phone_number = phone;
    mobile_number = mobile;
    address = address;
  })

-- The loop, `n` rounds from `i`; an element outside of the array is undefined.
unfoldable pub input_person_information : ℕ → ℕ → Book → ℕ → ℕ → Prog Call Reply Book
input_person_information zero i addr_book memidx pidx = ret addr_book
input_person_information (suc n) i addr_book memidx pidx = elim (get_elem? addr_book (memidx + i)) [
  | none ↦ halt undefined
  | some info ↦ do
    new ← input_one (pidx + i) info
    input_person_information n (i + 1) (set addr_book (memidx + i) new) memidx pidx
]

-- printf ("... %s\n", field)
unfoldable pub print_field : String → List ℕ → Prog Call Reply (Unit {0})
print_field format field = elim (c_string field) [
  | none ↦ halt undefined
  | some text ↦ printf format (str text ∷ [])
]

unfoldable pub print_one : Info → Prog Call Reply (Unit {0})
unfolding print_field
print_one info = do
  printf "[%d]\n" (num (pos info.index) ∷ [])
  print_field "\tName: %s\n" info.name
  print_field "\tPhone: %s\n" info.phone_number
  print_field "\tMobile: %s\n" info.mobile_number
  print_field "\tAddress: %s\n" info.address

unfoldable pub print_person_information : ℕ → ℕ → Book → Prog Call Reply (Unit {0})
print_person_information zero i addr_book = ret tt
print_person_information (suc n) i addr_book = elim (get_elem? addr_book i) [
  | none ↦ halt undefined
  | some info ↦ do print_one info; print_person_information n (i + 1) addr_book
]

abbrev same_bytes : List ℕ → List ℕ → Bool
same_bytes [] [] = true
same_bytes (x ∷ xs) (y ∷ ys) = x == y && same_bytes xs ys
same_bytes _ _ = false

-- memcmp over the whole structure, which has no padding; true for 0.
unfoldable pub same_info : Info → Info → Bool
same_info a b =
    a.index == b.index
    && (same_bytes a.name b.name
        && (same_bytes a.phone_number b.phone_number
            && (same_bytes a.mobile_number b.mobile_number && same_bytes a.address b.address)))

abbrev pub int_max : ℕ
int_max = 2 ^ 31 - 1

-- A block of `count` elements: all zeros from calloc; from realloc the old elements that it has room
-- for, and `garbage` behind them.
abbrev pub allocated : ℕ → Book
allocated count = replicate count blank

abbrev pub reallocated : Info → ℕ → Book → Book
reallocated garbage count addr = take count addr ++ replicate (count - length addr) garbage

-- A call for a block of elements: the block, if there is memory.
abbrev pub calloc_block : ℕ → Prog Call Reply (Option Book)
calloc_block count = do
  p ← sys (calloc count)
  ret (if is_zero p.ret then none else some (allocated count))

abbrev pub realloc_block : Info → ℕ → Book → Prog Call Reply (Option Book)
realloc_block garbage count addr = do
  p ← sys (realloc count)
  ret (if is_zero p.ret then none else some (reallocated garbage count addr))

-- `garbage` is what an element that realloc adds holds; `stack`, `nperson0`, `addnum0` and `cidx0` are
-- what `yn` and the three ints hold at first.
module _ (garbage : Info) (stack : List ℕ) (nperson0 addnum0 cidx0 : ℤ) where
  -- STEP 2
  unfoldable pub add_step : ℕ → Book → Prog Call Reply (ℕ × Book)
  unfolding scan_field
  add_step nperson addr = do
    printf "\nanyone else? [y/n] " []
    yn ← scan_field 2 stack
    if get_or yn 0 0 == b'y' || get_or yn 1 0 == b'Y'
        then (do
          printf "Input add number of person: " []
          a ← sys scan_int
          let addnum = scanned_int addnum0 a
          if is_nonpositive addnum then ret (nperson, addr) else (do
            when (ltb int_max (nperson + pos_part addnum)) (halt undefined)
            p ← realloc_block garbage (nperson + pos_part addnum) addr
            elim p [
              | none ↦ (do perror "realloc error: "; exit minus_one)
              | some block ↦ (do
                book ← input_person_information (pos_part addnum) 0 block nperson (nperson + 1)
                ret (nperson + pos_part addnum, book))
            ]))
        else ret (nperson, addr)

  -- STEP 1 and STEP 2 behind the number of persons: `nperson` and the array.
  unfoldable pub build_for : ℤ → Prog Call Reply (ℕ × Book)
  build_for nperson = do
    when (is_nonpositive nperson) do printf "Please input at least one person!\n" []; exit (pos 0)
    p ← calloc_block (pos_part nperson)
    elim p [
      | none ↦ (do perror "calloc error: "; exit minus_one)
      | some block ↦ (do
        addr ← input_person_information (pos_part nperson) 0 block 0 1
        add_step (pos_part nperson) addr)
    ]

  unfoldable pub build : Prog Call Reply (ℕ × Book)
  build = do
    printf "Input total number of person: " []
    n ← sys scan_int
    build_for (scanned_int nperson0 n)

  -- STEP 3 from the index that the user gives.
  unfoldable pub change_one : ℕ → Book → Prog Call Reply (Unit {0})
  change_one nperson addr = do
    printf "Input change index: " []
    c ← sys scan_int
    let cidx = scanned_int cidx0 c
    when (is_nonpositive cidx || ltb nperson (pos_part cidx))
        do printf "There's only %d persons\n" (num (pos nperson) ∷ []); exit (pos 0)
    printf "\n< change first person's information >\n" []
    newaddr ← input_one (pos_part cidx) blank
    elim (get_elem? addr (pos_part cidx - 1)) [
      | none ↦ halt undefined
      | some old ↦ if same_info old newaddr then printf "\nThe information is same!\n" [] else (do
        printf "\n< print new address book >\n" []
        print_person_information nperson 0 (set addr (pos_part cidx - 1) newaddr))
    ]

  unfoldable pub change_step : ℕ → Book → Prog Call Reply (Unit {0})
  unfolding scan_field
  change_step nperson addr = do
    printf "\nanyone change? [y/n] " []
    yn ← scan_field 2 stack
    if get_or yn 0 0 == b'y' || get_or yn 0 0 == b'Y' then change_one nperson addr else ret tt

  unfoldable pub main : Prog Call Reply (Unit {0})
  main = do
    (nperson, addr) ← build
    printf "\n< print original address book >\n" []
    print_person_information nperson 0 addr
    change_step nperson addr
    printf "finish!\n" []
    sys_ free
    exit (pos 0)

-- ===== src/Memory.antt =====
-- `handle_read_memory` and `handle_write_memory` of src/codelldb/src/debug_session.rs. The process,
-- parse_int and base64 are a parameter. Addresses are `u64`, references and counts `i64`.
pub mod Bounds
mod Tests
use codelldb.Prelude.{
  ℕ, ◌+◌, ◌-◌, ◌%◌, ◌^◌, min, inl, inr, ◌⊎◌, Bool, true, false, ◌||◌, ◌&&◌, zero, suc, Option, none,
  some, [], ◌∷◌, ◌++◌, leb, ltb, ◌==◌, if◌then◌else◌, length,
}
use codelldb.Prelude.Int.{ℤ, pos, to_u64, of_u64, wrapping_sum}
use codelldb.Prelude.Text.{Chars, chars}
use codelldb.Prelude.Exec.{Outcome, Exec, pure, fail, ◌>>=◌}
use codelldb.Str.Decimal.{show_usize}
use codelldb.Str.Hex.{show_hex_upper}
use codelldb.Str.Utf8.{Bytes}
use codelldb.Disassembly.{Address}

pub record Region : Type 0 where
  pub is_readable : Bool
  pub is_writable : Bool
  pub region_end : Address

-- `none` is an error of LLDB. A write gives the number of bytes written.
pub record Process : Type 1 where
  pub Debuggee : Type 0
  pub memory_region_info : Debuggee → Address → Option Region
  pub read_memory : Debuggee → Address → ℕ → Option Bytes
  pub write_memory : Address → Bytes → Debuggee → Option ℕ × Debuggee
  pub parse_int : Chars → Chars ⊎ ℤ
  pub encode : Bytes → Chars
  pub decode : Chars → Chars ⊎ Bytes

pub record ReadMemoryArguments : Type 0 where
  pub memory_reference : Chars
  pub offset : Option ℤ
  pub count : ℤ

pub record ReadMemoryResponse : Type 0 where
  pub address : Chars
  pub unreadable_bytes : Option ℤ
  pub contents : Option Chars

pub record WriteMemoryArguments : Type 0 where
  pub memory_reference : Chars
  pub offset : Option ℤ
  pub allow_partial : Option Bool
  pub contents : Chars

abbrev pub unwrap_or : {A : Type 0} → A → Option A → A
unwrap_or a none = a
unwrap_or a (some b) = b

abbrev pub address_of : ℤ → Option ℤ → Address
address_of mem_ref offset = to_u64 (wrapping_sum mem_ref (unwrap_or (pos 0) offset))

-- How much of a number of bytes lies in front of the end of a region.
unfoldable pub up_to_end : ℕ → Region → Address → ℕ
up_to_end count region address = min count ((region.region_end + 2 ^ 64 - address) % 2 ^ 64)

-- `{:08X}`
abbrev pub zeros : ℕ → Chars
zeros zero = []
zeros (suc n) = b'0' ∷ zeros n

abbrev pub show_address_8 : Address → Chars
show_address_8 address = let digits = show_hex_upper address in zeros (8 - length digits) ++ digits

module _ (p : Process) where
  open p use {Debuggee, memory_region_info, read_memory, write_memory, parse_int, encode, decode}

  abbrev pub unreadable : Address → ℤ → ReadMemoryResponse
  unreadable address count = record {
    address = chars "0x" ++ show_hex_upper address;
    unreadable_bytes = some count;
    contents = none;
  }

  abbrev pub response_of : Address → ℤ → Option Bytes → ReadMemoryResponse
  response_of address count none = unreadable address count
  response_of address count (some bytes) = record {
    address = chars "0x" ++ show_hex_upper address;
    unreadable_bytes = some (of_u64 ((to_u64 count + 2 ^ 64 - length bytes) % 2 ^ 64));
    contents = some (encode bytes);
  }

  abbrev pub read_region : Debuggee → Address → ℤ → Option Region → ReadMemoryResponse
  read_region d address count none = unreadable address count
  read_region d address count (some region) =
      if region.is_readable
      then response_of address count
          (read_memory d address (up_to_end (to_u64 count) region address))
      else unreadable address count

  unfoldable pub read_at : Debuggee → Address → ℤ → ReadMemoryResponse
  unfolding up_to_end
  read_at d address count = read_region d address count (memory_region_info d address)

  unfoldable pub handle_read_memory : ReadMemoryArguments → Exec Debuggee ReadMemoryResponse
  unfolding read_at
  handle_read_memory args = elim (parse_int args.memory_reference) [
    | inl e ↦ fail e
    | inr mem_ref ↦ (λ d. pure (read_at d (address_of mem_ref args.offset) args.count) d)
  ]

  -- The number of bytes written. Where nothing is written, it is zero if parts may be left out, and
  -- an error else.
  unfoldable pub not_written : Address → Bytes → Bool → Exec Debuggee ℕ
  not_written address bytes allow_partial =
      if allow_partial
      then pure 0
      else fail (
          chars "Cannot write "
          ++ show_usize (length bytes)
          ++ chars " bytes at "
          ++ show_address_8 address)

  abbrev pub written_or : Exec Debuggee ℕ → Option ℕ × Debuggee → Outcome ℕ × Debuggee
  written_or otherwise (some n, d) = pure n d
  written_or otherwise (none, d) = otherwise d

  abbrev pub write_region : Address → Bytes → Bool → Option Region → Exec Debuggee ℕ
  write_region address bytes allow_partial none = not_written address bytes allow_partial
  write_region address bytes allow_partial (some region) =
      if region.is_writable
        && (allow_partial || (up_to_end (length bytes) region address == length bytes))
      then (λ d.
          written_or (not_written address bytes allow_partial) (write_memory address bytes d))
      else not_written address bytes allow_partial

  unfoldable pub write_at : Address → Bytes → Bool → Exec Debuggee ℕ
  unfolding up_to_end not_written
  write_at address bytes allow_partial d =
      write_region address bytes allow_partial (memory_region_info d address) d

  unfoldable pub handle_write_memory : WriteMemoryArguments → Exec Debuggee ℕ
  unfolding write_at
  handle_write_memory args = elim (parse_int args.memory_reference) [
    | inl e ↦ fail e
    | inr mem_ref ↦ elim (decode args.contents) [
      | inl e ↦ fail e
      | inr bytes ↦
          write_at (address_of mem_ref args.offset) bytes (unwrap_or false args.allow_partial)
    ]
  ]

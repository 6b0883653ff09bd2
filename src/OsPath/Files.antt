-- ===== src/OsPath/Files.antt =====
-- src/OsPath.cpp, lines 61-73: the members that ask the file system by the standard library, which
-- may throw `filesystem_error`. What it answers is the parameter `Filesystem`.
use py_capio.Base.{
  ℕ, zero, suc, ℤ, pos, negsuc, ◌/◌, ◌^◌, Bytes, Bool, Outcome, ok, raised, undefined,
}

-- `std::filesystem::relative`, `last_write_time`, in nanoseconds of the file clock, and `equivalent`.
pub record Filesystem (World : Type 0) : Type 0 where
  pub relative : Bytes → Bytes → World → Outcome Bytes × World
  pub last_write_time : Bytes → World → Outcome ℤ × World
  pub equivalent : Bytes → Bytes → World → Outcome Bool × World

abbrev pub opposite : ℕ → ℤ
opposite zero = pos 0
opposite (suc n) = negsuc n

-- `time_point_cast<std::chrono::seconds>` cuts towards 0.
abbrev pub seconds_of : ℤ → ℤ
seconds_of (pos n) = pos (n / 10 ^ 9)
seconds_of (negsuc n) = opposite (suc n / 10 ^ 9)

abbrev pub in_seconds : Outcome ℤ → Outcome ℤ
in_seconds (ok ftime) = ok (seconds_of ftime)
in_seconds (raised e) = raised e
in_seconds undefined = undefined

module _ {World : Type 0} (F : Filesystem World) where
  unfoldable pub relpath : Bytes → Bytes → World → Outcome Bytes × World
  relpath path start w = F.relative path start w

  -- The count of seconds; a `double` has it exactly.
  unfoldable pub getmtime : Bytes → World → Outcome ℤ × World
  getmtime path w = let (r, w') = F.last_write_time path w in (in_seconds r, w')

  unfoldable pub samefile : Bytes → Bytes → World → Outcome Bool × World
  samefile p1 p2 w = F.equivalent p1 p2 w

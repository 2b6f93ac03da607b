-- ===== src/Float.antt =====
-- Python floats that are not negative and not NaN: scores, distances and durations.
-- A value is its IEEE 754 binary64 bit pattern read as a number: among such values the patterns
-- order as the values do, so that every comparison of the source is exact. A literal is the
-- pattern of the double nearest to it. Rounded arithmetic is a parameter.
use wander_mind.Prelude.{ℕ}

abbrev pub Float : Type 0
Float = ℕ

-- The operations of the interpreter that the source calls, each result rounded; `abs_diff a b` is
-- `abs(a - b)`.
pub record FloatOps : Type 0 where
  pub add : Float → Float → Float
  pub abs_diff : Float → Float → Float
  pub minus : Float → Float → Float
  pub times : Float → Float → Float
  pub over : Float → Float → Float
  pub of_int : ℕ → Float

abbrev pub f0_0 : Float
f0_0 = 0x0000000000000000

abbrev pub f1_0 : Float
f1_0 = 0x3FF0000000000000

abbrev pub f0_10 : Float
f0_10 = 0x3FB999999999999A

abbrev pub f0_15 : Float
f0_15 = 0x3FC3333333333333

abbrev pub f0_35 : Float
f0_35 = 0x3FD6666666666666

abbrev pub f0_40 : Float
f0_40 = 0x3FD999999999999A

abbrev pub f0_60 : Float
f0_60 = 0x3FE3333333333333

abbrev pub f0_75 : Float
f0_75 = 0x3FE8000000000000

abbrev pub f0_80 : Float
f0_80 = 0x3FE999999999999A

abbrev pub f0_85 : Float
f0_85 = 0x3FEB333333333333

abbrev pub f0_25 : Float
f0_25 = 0x3FD0000000000000

abbrev pub f0_45 : Float
f0_45 = 0x3FDCCCCCCCCCCCCD

abbrev pub f0_58 : Float
f0_58 = 0x3FE28F5C28F5C28F

abbrev pub f0_63 : Float
f0_63 = 0x3FE428F5C28F5C29

abbrev pub f0_57 : Float
f0_57 = 0x3FE23D70A3D70A3D

abbrev pub f0_70 : Float
f0_70 = 0x3FE6666666666666

abbrev pub f0_50 : Float
f0_50 = 0x3FE0000000000000

abbrev pub f0_55 : Float
f0_55 = 0x3FE199999999999A

abbrev pub f0_30 : Float
f0_30 = 0x3FD3333333333333

abbrev pub f2_0 : Float
f2_0 = 0x4000000000000000

abbrev pub f3_0 : Float
f3_0 = 0x4008000000000000

abbrev pub f5_0 : Float
f5_0 = 0x4014000000000000

abbrev pub f300_0 : Float
f300_0 = 0x4072C00000000000

abbrev pub f0_65 : Float
f0_65 = 0x3FE4CCCCCCCCCCCD

abbrev pub f0_08 : Float
f0_08 = 0x3FB47AE147AE147B

abbrev pub f0_12 : Float
f0_12 = 0x3FBEB851EB851EB8

abbrev pub f0_14 : Float
f0_14 = 0x3FC1EB851EB851EC

abbrev pub f0_18 : Float
f0_18 = 0x3FC70A3D70A3D70A

abbrev pub f0_20 : Float
f0_20 = 0x3FC999999999999A

abbrev pub f0_95 : Float
f0_95 = 0x3FEE666666666666

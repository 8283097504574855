-- ===== src/Kbd/Tables.antt =====
-- The tables of kbd/kbd.go: the entries that are listed in order, and those with their index.
use eggos.Base.{ℕ, List, [], ◌∷◌, ◌==◌, if◌then◌else◌, get_or}

-- An entry with an index counts before the listed ones; all others are 0.
abbrev pub entry : List ℕ → List (ℕ × ℕ) → ℕ → ℕ
entry listed [] i = get_or listed i 0
entry listed ((j, v) ∷ rest) i = if i == j then v else entry listed rest i

unfoldable pub shiftcode : ℕ → ℕ
shiftcode d =
    entry []
      ((0x1d, 0x2) ∷ (0x2a, 0x1) ∷ (0x36, 0x1) ∷ (0x38, 0x4) ∷ (0x9d, 0x2) ∷ (0xb8, 0x4) ∷ []) d

unfoldable pub togglecode : ℕ → ℕ
togglecode d = entry [] ((0x3a, 0x8) ∷ (0x45, 0x10) ∷ (0x46, 0x20) ∷ []) d

abbrev normalmap_listed : List ℕ
normalmap_listed =
    0 ∷ 27 ∷ 49 ∷ 50 ∷ 51 ∷ 52 ∷ 53 ∷ 54 ∷ 55 ∷ 56 ∷ 57 ∷ 48 ∷ 45 ∷ 61 ∷ 8 ∷ 9 ∷ 113 ∷ 119 ∷ 101
    ∷ 114 ∷ 116 ∷ 121 ∷ 117 ∷ 105 ∷ 111 ∷ 112 ∷ 91 ∷ 93 ∷ 10 ∷ 0 ∷ 97 ∷ 115 ∷ 100 ∷ 102 ∷ 103 ∷ 104
    ∷ 106 ∷ 107 ∷ 108 ∷ 59 ∷ 39 ∷ 96 ∷ 0 ∷ 92 ∷ 122 ∷ 120 ∷ 99 ∷ 118 ∷ 98 ∷ 110 ∷ 109 ∷ 44 ∷ 46 ∷ 47
    ∷ 0 ∷ 42 ∷ 0 ∷ 32 ∷ 0 ∷ 0 ∷ 0 ∷ 0 ∷ 0 ∷ 0 ∷ 0 ∷ 0 ∷ 0 ∷ 0 ∷ 0 ∷ 0 ∷ 0 ∷ 55 ∷ 56 ∷ 57 ∷ 45 ∷ 52
    ∷ 53 ∷ 54 ∷ 43 ∷ 49 ∷ 50 ∷ 51 ∷ 48 ∷ 46 ∷ 0 ∷ 0 ∷ 0 ∷ 0 ∷ []

unfoldable pub normalmap : ℕ → ℕ
normalmap d =
    entry normalmap_listed
      ((0x9c, 0xa)
        ∷ (0xb5, 0x2f)
        ∷ (0xc8, 0xe2)
        ∷ (0xd0, 0xe3)
        ∷ (0xc9, 0xe6)
        ∷ (0xd1, 0xe7)
        ∷ (0xcb, 0xe4)
        ∷ (0xcd, 0xe5)
        ∷ (0x97, 0xe0)
        ∷ (0xcf, 0xe1)
        ∷ (0xd2, 0xe8)
        ∷ (0xd3, 0xe9)
        ∷ [])
      d

abbrev shiftmap_listed : List ℕ
shiftmap_listed =
    0 ∷ 27 ∷ 33 ∷ 64 ∷ 35 ∷ 36 ∷ 37 ∷ 94 ∷ 38 ∷ 42 ∷ 40 ∷ 41 ∷ 95 ∷ 43 ∷ 8 ∷ 9 ∷ 81 ∷ 87 ∷ 69 ∷ 82
    ∷ 84 ∷ 89 ∷ 85 ∷ 73 ∷ 79 ∷ 80 ∷ 123 ∷ 125 ∷ 10 ∷ 0 ∷ 65 ∷ 83 ∷ 68 ∷ 70 ∷ 71 ∷ 72 ∷ 74 ∷ 75 ∷ 76
    ∷ 58 ∷ 34 ∷ 126 ∷ 0 ∷ 124 ∷ 90 ∷ 88 ∷ 67 ∷ 86 ∷ 66 ∷ 78 ∷ 77 ∷ 60 ∷ 62 ∷ 63 ∷ 0 ∷ 42 ∷ 0 ∷ 32
    ∷ 0 ∷ 0 ∷ 0 ∷ 0 ∷ 0 ∷ 0 ∷ 0 ∷ 0 ∷ 0 ∷ 0 ∷ 0 ∷ 0 ∷ 0 ∷ 55 ∷ 56 ∷ 57 ∷ 45 ∷ 52 ∷ 53 ∷ 54 ∷ 43 ∷ 49
    ∷ 50 ∷ 51 ∷ 48 ∷ 46 ∷ 0 ∷ 0 ∷ 0 ∷ 0 ∷ []

unfoldable pub shiftmap : ℕ → ℕ
shiftmap d =
    entry shiftmap_listed
      ((0x9c, 0xa)
        ∷ (0xb5, 0x2f)
        ∷ (0xc8, 0xe2)
        ∷ (0xd0, 0xe3)
        ∷ (0xc9, 0xe6)
        ∷ (0xd1, 0xe7)
        ∷ (0xcb, 0xe4)
        ∷ (0xcd, 0xe5)
        ∷ (0x97, 0xe0)
        ∷ (0xcf, 0xe1)
        ∷ (0xd2, 0xe8)
        ∷ (0xd3, 0xe9)
        ∷ [])
      d

abbrev ctlmap_listed : List ℕ
ctlmap_listed =
    0 ∷ 0 ∷ 0 ∷ 0 ∷ 0 ∷ 0 ∷ 0 ∷ 0 ∷ 0 ∷ 0 ∷ 0 ∷ 0 ∷ 0 ∷ 0 ∷ 0 ∷ 0 ∷ 17 ∷ 23 ∷ 5 ∷ 18 ∷ 20 ∷ 25 ∷ 21
    ∷ 9 ∷ 15 ∷ 16 ∷ 0 ∷ 0 ∷ 13 ∷ 0 ∷ 1 ∷ 19 ∷ 4 ∷ 6 ∷ 7 ∷ 8 ∷ 10 ∷ 11 ∷ 12 ∷ 0 ∷ 0 ∷ 0 ∷ 0 ∷ 28 ∷ 26
    ∷ 24 ∷ 3 ∷ 22 ∷ 2 ∷ 14 ∷ 13 ∷ 0 ∷ 0 ∷ 239 ∷ 0 ∷ 0 ∷ []

unfoldable pub ctlmap : ℕ → ℕ
ctlmap d =
    entry ctlmap_listed
      ((0x9c, 0xd)
        ∷ (0xb5, 0xef)
        ∷ (0xc8, 0xe2)
        ∷ (0xd0, 0xe3)
        ∷ (0xc9, 0xe6)
        ∷ (0xd1, 0xe7)
        ∷ (0xcb, 0xe4)
        ∷ (0xcd, 0xe5)
        ∷ (0x97, 0xe0)
        ∷ (0xcf, 0xe1)
        ∷ (0xd2, 0xe8)
        ∷ (0xd3, 0xe9)
        ∷ [])
      d

-- ===== src/Gps.antt =====
-- gps.cpp: the positions in the texts of APRS. Numbers in text are read, and doubles computed with, by
-- a parameter; a double is its bits.
use ham_router.Common.{
  ℕ, ◌-◌, List, length, get_or, take, drop, ◌&&◌, ◌||◌, ltb, leb, ◌==◌, if◌then◌else◌, Option, none,
  some, codes,
}
use ham_router.Text.{one_of, index_of}

-- The arithmetic on doubles: `atof`, and `deg + min / 60` with its sign turned or not.
pub record Degrees : Type 0 where
  pub atof : List ℕ → ℕ
  pub add_sixtieths : ℕ → ℕ → ℕ
  pub negate : ℕ → ℕ

module _ (d : Degrees) where
  open d use {atof, add_sixtieths, negate}

  -- Two digits of minutes stand before the dot, and up to three of degrees before them.
  unfoldable pub nmea_to_degrees : List ℕ → ℕ → Option ℕ
  nmea_to_degrees lat_lon direction = elim (index_of (one_of (codes ".")) lat_lon) [
    | none ↦ none
    | some dot ↦
        let dec = add_sixtieths (atof (take (dot - 2) lat_lon)) (atof (drop (dot - 2) lat_lon)) in
        if ltb 5 dot || ltb dot 2
        then none
        else some (if direction == b'S' || direction == b'W' then negate dec else dec)
  ]

  -- The latitude and the longitude. A time code before them is skipped, and nothing read then.
  unfoldable pub parse_nmea_pos : List ℕ → Option (ℕ × ℕ)
  unfolding nmea_to_degrees
  parse_nmea_pos what =
      if get_or what 0 0 == b'@'
      then none
      else if get_or what 0 0 == b'!' && leb 19 (length what)
      then elim (nmea_to_degrees (drop 1 what) (get_or what 9 0)) [
        | none ↦ none
        | some lat ↦ elim (nmea_to_degrees (drop 10 what) (get_or what 18 0)) [
          | none ↦ none
          | some lng ↦ some (lat, lng)
        ]
      ]
      else none

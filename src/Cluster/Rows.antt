-- ===== src/Cluster/Rows.antt =====
-- status.go: the template of a machine's rows on the status page.
--
-- How durations, sizes, times and floating-point numbers are written is an argument. Durations are
-- nanoseconds that are not negative.
use bigmachine.Prelude.{
  ℕ, ◌+◌, ◌-◌, ◌%◌, ◌^◌, ◌≤◌, ◌<◌, ◌≡◌, Bool, List, [], ◌∷◌, ◌++◌, map, Text, codes, if◌then◌else◌,
  arith,
}

-- time.Duration's String, data.Size's, time.Time's, time.Until, and `%.1f` of a float64.
pub record Formats (Float : Type 0) : Type 0 where
  pub duration : ℕ → Text
  pub size : ℕ → Text
  pub time : ℕ → Text
  pub until : ℕ → Text
  pub tenths : Float → Text

-- What the template reads.
pub record Values (Float : Type 0) : Type 0 where
  pub addr : Text
  pub owned : Bool
  pub next_keepalive : ℕ
  pub keepalive_reply_times : List ℕ
  pub memory_total : ℕ
  pub memory_used : ℕ
  pub memory_percent : Float
  pub memory_available : ℕ
  pub runtime_sys : ℕ
  pub runtime_alloc : ℕ
  pub uptime : ℕ
  pub pause_total : ℕ
  pub last_pause : ℕ
  pub disk_total : ℕ
  pub disk_free : ℕ
  pub disk_used : ℕ
  pub disk_percent : Float
  pub load1 : Float
  pub load5 : Float
  pub load15 : Float

-- A number of tabs, and a line.
abbrev tab : Text
tab = 9 ∷ []

abbrev line : Text → Text
line t = t ++ 10 ∷ []

-- `d - d%time.Millisecond`.
unfoldable pub rounded : ℕ → ℕ
rounded d = d - d % 10 ^ 6

-- strings.Join with a space.
abbrev pub joined : List Text → Text
joined [] = []
joined (t ∷ []) = t
joined (t ∷ u ∷ ts) = t ++ codes " " ++ joined (u ∷ ts)

module _ {Float : Type 0} (f : Formats Float) where
  -- roundjoindur.
  unfoldable pub round_join : List ℕ → Text
  unfolding rounded
  round_join ds = joined (map (λ d. f.duration (rounded d)) ds)

  -- A line of the inner level: its name, a tab, and its value.
  abbrev inner : Text → Text → Text
  inner name value = line (tab ++ tab ++ name ++ codes ":" ++ tab ++ value)

  abbrev percent : Float → Text
  percent x = f.tenths x ++ codes "%"

  -- The part of the template for an owned machine, which goes on in the line of the next part.
  unfoldable pub keepalive_rows : Values Float → Text
  unfolding round_join
  keepalive_rows v =
      if v.owned
      then line (tab ++ codes "keepalive:")
        ++ inner (codes "next")
            (f.time v.next_keepalive ++ codes " (in " ++ f.until v.next_keepalive ++ codes ")")
        ++ inner (codes "reply times") (round_join v.keepalive_reply_times)
      else []

  -- statusTemplate.
  unfoldable pub status_rows : Values Float → Text
  unfolding keepalive_rows
  status_rows v =
      line v.addr
      ++ keepalive_rows v
      ++ line (tab ++ codes "memory:")
      ++ inner (codes "total") (f.size v.memory_total)
      ++ inner (codes "used") (f.size v.memory_used)
      ++ inner (codes "(percent)") (percent v.memory_percent)
      ++ inner (codes "available") (f.size v.memory_available)
      ++ inner (codes "runtime") (f.size v.runtime_sys)
      ++ inner (codes "(alloc)") (f.size v.runtime_alloc)
      ++ line (tab ++ codes "runtime:")
      ++ inner (codes "uptime") (f.duration v.uptime)
      ++ inner (codes "pausetime") (f.duration v.pause_total)
      ++ inner (codes "(last)") (f.duration v.last_pause)
      ++ line (tab ++ codes "disk:")
      ++ inner (codes "total") (f.size v.disk_total)
      ++ inner (codes "available") (f.size v.disk_free)
      ++ inner (codes "used") (f.size v.disk_used)
      ++ inner (codes "(percent)") (percent v.disk_percent)
      ++ line (
          tab
          ++ codes "load: "
          ++ f.tenths v.load1
          ++ codes " "
          ++ f.tenths v.load5
          ++ codes " "
          ++ f.tenths v.load15)

-- A reply time is shown in whole milliseconds, less than one below what it is.
pub rounded-le : (d : ℕ) → (rounded d % 10 ^ 6 ≡ 0) × (rounded d ≤ d) × (d < rounded d + 10 ^ 6)
unfolding rounded
rounded-le d = (omega arith, omega arith, omega arith)

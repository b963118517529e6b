-- ===== src/Invalidation/Notifications.antt =====
-- internal/fusefs/invalidation_linux.go: what the kernel is told of the targets of a change.
use fabric_workspace_fs.Prelude.{
  ℕ, ◌+◌, ◌≡◌, refl, ◌∙◌, Bool, true, false, not, ◌&&◌, List, [], ◌∷◌, ◌++◌, arith, if◌then◌else◌,
  map,
}
use fabric_workspace_fs.Names.{is_nil}
use fabric_workspace_fs.Invalidation.{Target, Call, attr, entry, round, notifications}

-- what a target is for: the attributes of an inode, or an entry of a directory
unfoldable pub call_of : Target → Call
call_of t = if is_nil t.name then attr t.inode else entry t.inode t.name

-- how many calls pass a test
unfoldable pub count : (Call → Bool) → List Call → ℕ
count test [] = 0
count test (c ∷ cs) = (if test c then 1 else 0) + count test cs

unfoldable pub is_attr : Call → Bool
is_attr (attr inode) = true
is_attr (entry inode name) = false

unfoldable pub all_entries : List Call → Bool
all_entries [] = true
all_entries (c ∷ cs) = not (is_attr c) && all_entries cs

-- no attributes are invalidated after an entry
unfoldable pub attr_first : List Call → Bool
attr_first [] = true
attr_first (c ∷ cs) = let rest = attr_first cs in if is_attr c then rest else all_entries cs

count-append :
    (test : Call → Bool) (xs ys : List Call) → count test (xs ++ ys) ≡ count test xs + count test ys
unfolding count
count-append test [] ys = omega arith
count-append test (x ∷ xs) ys = ground (arith, count-append test xs ys)

count-round :
    (test : Call → Bool) (ts : List Target)
    → count test (round false ts) + count test (round true ts) ≡ count test (map call_of ts)
unfolding count round call_of
count-round test [] = omega arith
count-round test (t ∷ ts) = ground (arith, count-round test ts)

all_entries-round : (ts : List Target) → all_entries (round true ts) ≡ true
unfolding all_entries round is_attr
all_entries-round [] = refl
all_entries-round (t ∷ ts) = ground (arith, all_entries-round ts)

attr_first_entries : (cs : List Call) → all_entries cs ≡ true → attr_first cs ≡ true
unfolding attr_first all_entries
attr_first_entries [] h = refl
attr_first_entries (c ∷ cs) h = ground arith

attr_first-rounds :
    (ts : List Target) (cs : List Call)
    → all_entries cs ≡ true
    → attr_first (round false ts ++ cs) ≡ true
unfolding attr_first round is_attr
attr_first-rounds [] cs h = attr_first_entries cs h
attr_first-rounds (t ∷ ts) cs h = ground (arith, attr_first-rounds ts cs h)

-- The calls of the notifier for a change are, each as often, those that its targets stand for,
-- the attributes of the inode for a target without a name and the entry under its name for one
-- with a name; and no attributes are invalidated after an entry.
pub notifications_lem :
    (test : Call → Bool) (ts : List Target)
    → (count test (notifications ts) ≡ count test (map call_of ts))
      × (attr_first (notifications ts) ≡ true)
unfolding notifications
notifications_lem test ts = (
  count-append test (round false ts) (round true ts) ∙ count-round test ts,
  attr_first-rounds ts (round true ts) (all_entries-round ts),
)

-- ===== src/Context/Cursor.antt =====
-- `ReplayCursor` of src/context.rs: it walks a loaded journal event by event.
use yaoki.Prelude.{◌+◌, Bool, Option, length, get_elem?, leb, if◌then◌else◌}
use yaoki.Seq.{EventOffset}
use yaoki.Journal.{Journal, JournalEvent}
use yaoki.History.{ReplayHistory}

pub data ReplaySource : Type 0 where
  raw : Journal → ReplaySource
  validated : ReplayHistory → ReplaySource

abbrev pub source_events : ReplaySource → Journal
source_events (raw journal) = journal
source_events (validated history) = history.journal

pub record ReplayCursor : Type 0 where
  pub source : ReplaySource
  pub position : EventOffset

abbrev pub events : ReplayCursor → Journal
events cursor = source_events cursor.source

unfoldable pub new : Journal → ReplayCursor
new journal = record { source = raw journal; position = 0 }

-- A parsed history is read from the event behind its invocation.
unfoldable pub from_history : ReplayHistory → ReplayCursor
from_history history = record { source = validated history; position = 1 }

unfoldable pub is_exhausted : ReplayCursor → Bool
is_exhausted cursor = leb (length (events cursor)) cursor.position

unfoldable pub peek : ReplayCursor → Option JournalEvent
peek cursor = get_elem? (events cursor) cursor.position

unfoldable pub advance : ReplayCursor → ReplayCursor
unfolding is_exhausted
advance cursor =
    if is_exhausted cursor then cursor else record cursor { position = cursor.position + 1 }

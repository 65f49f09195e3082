-- ===== src/Quic/Download/Steps.antt =====
-- server/quic/download.py: what happens to a scheduler. Its task runs from one await to the next;
-- between, the other tasks of the connection and the network take their turns.
use mini_im.Prelude.{ℕ, String}
use mini_im.Quic.Download.{Transport, DownloadScheduler, start, cancel, notify, close}
use mini_im.Quic.Download.Turns.{Files, resume}

-- `Moves` is how the transport's state changes on its own, `Sees` what files a read can find, and
-- `Calls` with what file id, path, size, offset and priority `start` is called.
module _ {Q : Type 0} (transport : Transport Q) (Moves : Q → Q → Type 0) (Sees : Files → Type 0)
    (Calls : String → String → ℕ → ℕ → ℕ → Type 0) where
  pub data Step : DownloadScheduler Q → DownloadScheduler Q → Type 0 where
    started :
        {s : DownloadScheduler Q} (file_id path : String) (size offset priority : ℕ)
        → Calls file_id path size offset priority
        → Step s (start transport file_id path size offset priority s).1
    cancelled : {s : DownloadScheduler Q} (file_id : String) → Step s (cancel transport file_id s)
    notified : {s : DownloadScheduler Q} → Step s (notify transport s)
    closed : {s : DownloadScheduler Q} → Step s (close transport s)
    received :
        {s : DownloadScheduler Q} (quic : Q) → Moves s.quic quic → Step s (record s { quic = quic })
    resumed :
        {s : DownloadScheduler Q} (files : Files) → Sees files → Step s (resume transport files s)

  pub data Reach : DownloadScheduler Q → DownloadScheduler Q → Type 0 where
    here : {s : DownloadScheduler Q} → Reach s s
    after : {s t u : DownloadScheduler Q} → Reach s t → Step t u → Reach s u

  -- What every step keeps holds of what is reached.
  pub Reach-keeps :
      (P : DownloadScheduler Q → Type 0)
      → ((s t : DownloadScheduler Q) → Step s t → P s → P t)
      → (s t : DownloadScheduler Q) → Reach s t
      → P s
      → P t
  Reach-keeps P keep s _ here h = h
  Reach-keeps P keep s u (after {t = t} r step) h = keep t u step (Reach-keeps P keep s t r h)

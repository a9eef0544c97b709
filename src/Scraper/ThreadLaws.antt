-- ===== src/Scraper/ThreadLaws.antt =====
-- scraper.go: the page that FetchThread reads, and the thread that it leaves open.
use mediavida.Base.{◌≡◌, Text, some, text_key}
use mediavida.Base.Int.{ℤ, pos, ◌≤ℤ◌, ◌<ℤ◌}
use mediavida.Scraper.Threads.{ThreadNet, ThreadDoc, ThreadPage, thread_page_url, count_pages}

-- The page is one of the thread; it is the asked one, or the last one where none or one behind the
-- last is asked.
abbrev pub IsPageOf : ℤ → ThreadPage → Type 0
IsPageOf page p =
    (pos 1 ≤ℤ p.current_page)
    × (p.current_page ≤ℤ p.total_pages)
    × (page ≤ℤ pos 0 → p.current_page ≡ p.total_pages)
    × (pos 0 <ℤ page → page ≤ℤ p.total_pages → p.current_page ≡ page)
    × (p.total_pages <ℤ page → p.current_page ≡ p.total_pages)

-- The messages are those of the page of the thread at the reported number, and the reported total is
-- the greatest number that the pager of its first page shows.
abbrev pub IsRead : ThreadNet → Text → ThreadPage → Type 0
IsRead net url p =
    ((d : ThreadDoc) × (net.get (thread_page_url net url p.current_page) ≡ some d)
      × (p.messages ≡ d.messages))
    × ((d : ThreadDoc) × (net.get (thread_page_url net url (pos 1)) ≡ some d)
        × (p.total_pages ≡ count_pages d.side_pages (pos 1)))

Targets : ℤ → ℤ → ℤ → Type 0
Targets page total t =
    (pos 1 ≤ℤ t)
    × (t ≤ℤ total)
    × (page ≤ℤ pos 0 → t ≡ total)
    × (pos 0 <ℤ page → page ≤ℤ total → t ≡ page)
    × (total <ℤ page → t ≡ total)

-- ===== src/Tests/Wizard.antt =====
-- catalog.py, onboarding.py and the wizard of web/onboarding.py on the sample shop.
use twirl.Prelude.{
  inl, inr, ℕ, ◌≡◌, refl, arith, ◌⊎◌, true, false, some, none, [], ◌∷◌, ◌++◌, codes, show, sort_by,
}
use twirl.Exec.{◌>>=◌}
use twirl.Exec.Holds.{Ends}
use twirl.Model.{Db, Style, StyleImage, evening}
use twirl.Otp.{PhoneCodes, signup}
use twirl.Catalog.{add_items}
use twirl.Catalog.Stock.{Added, NotAdded, add_items_outcome}
use twirl.Onboarding.{
  active_items, publish, is_incomplete, photo_count, put_online, write_style, write_shop,
}
use twirl.Staff.{load_shop, load_style}
use twirl.Notify.{notify_admin, enqueue}
use twirl.Onboarding.Slug.{unique_slug, is_valid_slug, slug_taken}
use twirl.Onboarding.Slug.Unique.{unique_slug-IsNewSlug}
use twirl.Onboarding.Provider.{apply_hours, provider_shop}
use twirl.Onboarding.Profile.{weekly_hours, default_hours}
use twirl.Onboarding.Profile.Saved.{weekly_hours-apply_hours}
use twirl.Wizard.{Site, flow, reached, open_step, draft_style}
use twirl.Wizard.Forms.{Process, review_submit, code_submit}
use twirl.Wizard.Opens.{Shows, EndInTime, reached-Shows}
use twirl.Wizard.Entry.{IsEntered, code_submit-IsEntered}
use twirl.Wizard.Review.{IsPublished, review_submit-IsPublished}
use twirl.Tests.Data.{sample_host, sample_shop, sample_style, sample_db}

add_items_outcome_example :
    Ends
      (Added sample_host sample_style (codes " m ") 3 sample_db)
      (NotAdded sample_host (codes " m ") 3 sample_db)
      (add_items sample_host sample_style (codes " m ") 3 sample_db)
add_items_outcome_example = add_items_outcome sample_host sample_style (codes " m ") 3 sample_db

unique_slug-IsNewSlug_example :
    (is_valid_slug (unique_slug sample_host (codes "Salon") sample_db) ≡ true)
    × (slug_taken (unique_slug sample_host (codes "Salon") sample_db) sample_db.shops ≡ false)
unique_slug-IsNewSlug_example =
    unique_slug-IsNewSlug sample_host (codes "Salon") sample_db (omega arith)

weekly_hours-apply_hours_example :
    weekly_hours (apply_hours default_hours sample_shop.hours) ≡ default_hours
weekly_hours-apply_hours_example = weekly_hours-apply_hours default_hours sample_shop.hours

-- a dress of the owner that lacks nothing but its publication
abbrev draft : Style
draft = record sample_style { published = false; category = some evening }

abbrev photo : ℕ → StyleImage
photo n = record {
  id = n;
  style_id = 1;
  position = n;
  storage_key = codes "styles/1/" ++ show n;
  width = 600;
  height = 800;
}

abbrev draft_db : Db
draft_db = record sample_db { styles = draft ∷ []; style_images = photo 0 ∷ photo 1 ∷ photo 2 ∷ [] }

abbrev no_codes : PhoneCodes
no_codes = record { rows = []; seq = 1 }

abbrev draft_site : Site
draft_site = record {
  db = draft_db;
  phone_codes = no_codes;
  files = [];
  browser = record { user_id = some 2; path = none; phone = none; style_id = some 1 };
}

abbrev pub process : Process
process = record {
  host = sample_host;
  mac = λ key message. key ++ message;
  secret = codes "k";
  now = 5;
  today = 739880;
  drawn = 123456;
}

in_time : EndInTime draft_site.db
in_time b (inl e) = rw e (omega arith)
in_time b (inr (inl e)) = rw e (omega arith)
in_time b (inr (inr i)) = elim i [ ]

reached-Shows_example :
    let step = reached (flow draft_site.browser draft_site.db) draft_site.db in
    Shows step (open_step step draft_site)
reached-Shows_example = reached-Shows draft_site in_time

abbrev published_site : Site
published_site = (review_submit process true draft_site).1

review_submit-IsPublished_example :
    (s : Style) × (draft_style (flow draft_site.browser draft_site.db) ≡ some s)
    × IsPublished s.id true draft_site.db published_site.db
unfolding review_submit reached flow provider_shop active_items sort_by publish ◌>>=◌ load_shop
    load_style is_incomplete photo_count put_online write_style write_shop notify_admin enqueue
review_submit-IsPublished_example =
    review_submit-IsPublished process true draft_site published_site refl

-- a browser that waits for the code that was sent to a phone
abbrev waiting_site : Site
waiting_site = record {
  db = sample_db;
  phone_codes = record {
    rows =
        record {
          id = 1;
          phone = codes "+3839";
          purpose = signup;
          code_hash = codes "k" ++ codes "+3839" ++ codes ":" ++ codes "000042";
          expires_at = 600000000;
          attempts = 0;
          consumed_at = none;
          created_at = 0;
        }
        ∷ [];
    seq = 2;
  };
  files = [];
  browser = record {
    user_id = none;
    path = some (codes "salon");
    phone = some (codes "+3839");
    style_id = none;
  };
}

code_submit-IsEntered_example :
    let site' = (code_submit process (codes "000042") waiting_site).1 in
    (site'.browser ≡ waiting_site.browser) ⊎ IsEntered process (codes "000042") waiting_site site'
code_submit-IsEntered_example = code_submit-IsEntered process (codes "000042") waiting_site

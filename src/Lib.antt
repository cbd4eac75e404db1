-- ===== src/Lib.antt =====
-- Twirl rents dresses: shops list styles with physical items, renters ask for a style, a size and a date,
-- and the people of a shop handle bookings at their desk. This library models the core of the program
-- (src/twirl) and proves it.
--
-- The parts and their files. Paths of the source are from the root of the repository.
--   Model/*, Session/*   src/twirl/models: the rows, and what the session writes. INSERT and UPDATE answer
--                        with the constraints of the bookings table; a savepoint gives back the rows, and
--                        not the sequences. A date is its ordinal, a time counts microseconds, a text is
--                        its list of code points.
--   Exec/*               functions that write to the session and may raise; what was written before a raise
--                        stays until a savepoint or a rollback.
--   Dates/*              src/twirl/booking/dates.py, rules.py
--   Availability/*       src/twirl/booking/availability.py
--   Timeline/*           src/twirl/booking/states.py, timeline.py
--   Requests/*           src/twirl/booking/requests.py. Other transactions are a value `Rivals`: the items
--                        that they lock while a round picks one, and what they commit before its flush.
--   Staff/*              src/twirl/booking/staff.py
--   Customers, Codes/*, Host, Sizes
--                        src/twirl/customers.py, codes.py, phones.py, and the sizes of catalog.py
--   Search/*             src/twirl/search.py
--   Notify/*             src/twirl/notify/outbox.py, payloads.py, templates.py
--   Board/*              src/twirl/booking/board.py
--   Onboarding/*         src/twirl/onboarding.py
--   Onboarding/Slug/*    slugify and unique_slug of it, and src/twirl/slugs.py
--   Catalog/*, Photos/*  styles, items and photos of src/twirl/catalog.py
--   Wizard/*             src/twirl/web/onboarding.py, phone_auth.py: the pages and forms in which a provider
--                        lists a first dress, as functions of the tables, the codes, the files and the
--                        session of the browser
--   Jobs/*               src/twirl/jobs.py
--   Exclusion/*          the exclusion constraint of src/twirl/models/bookings.py as an invariant, one
--                        file for each part whose operations it is about
--   Storefront/*, Home/* src/twirl/web/storefront.py, pages.py
--   Login/*              src/twirl/web/auth.py: the forms of the login, over the session of the browser
--   Backoffice/*         src/twirl/web/shop_catalog.py, shop_settings.py, auth/deps.py: who a request is
--                        served for, and what a form of a shop's people does to the tables
--   Server/*             the operations as transactions, each committed or rolled back (src/twirl/web,
--                        src/twirl/scheduler.py)
--   Otp/*                src/twirl/otp.py
--   RateLimit/*          src/twirl/ratelimit.py
--   Tests/*              sample data, tests, and the theorems at concrete inputs
--
-- How they interact: the operations of Requests, Staff and Jobs call Timeline, Availability, Codes,
-- Customers and Notify, and all of them write through Session. An object of the ORM is passed as the id of
-- its row. Errors are values of one type (src/twirl/booking/errors.py), with those of the database.
--
-- Bounds. `roll` looks at fourteen days, as MAX_ROLL_DAYS says; codes are tried twenty times, and a request
-- as often as `max_attempts` says: these are the loops of the source, and running out is the error that the
-- source raises. `decimal` has as many rounds as the number plus one, more than its digits.
-- `next_style_code` and `unique_slug` loop without a bound in the source: their rounds are the styles of the
-- shop, and the shops and one more, by when some candidate is free.
--
-- Parameters, for code that is not in the repository: the phone number library, strftime and NFKD, the
-- numbers of `secrets`, and upper (Host); the HMAC of a code (Otp); what a sender answers (Jobs); argon2
-- and `lower` (Login); the order of the calendar's rows under the database's collation (Board); what
-- becomes of an uploaded image (Photos); which characters count as digits, and the order of texts under
-- the database's collation (Host).
--
-- Not modelled: what the pages show, the parsing of the fields of most forms, the administration, the
-- processing of images and their storage, the hashing of passwords, cookies, the senders, translations,
-- configuration and migrations. Row locks appear only as the items that a request skips.
pub mod Prelude
pub mod Exec
pub mod Model
pub mod Errors
pub mod Host
pub mod Session
pub mod Sizes
pub mod Dates
pub mod Timeline
pub mod Customers
pub mod Codes
pub mod Notify
pub mod Availability
pub mod Board
pub mod Catalog
pub mod Photos
pub mod Search
pub mod Staff
pub mod Requests
pub mod Jobs
pub mod Exclusion
pub mod Onboarding
pub mod Wizard
pub mod Storefront
pub mod Home
pub mod Login
pub mod Backoffice
pub mod Server
pub mod Otp
pub mod RateLimit
pub mod Tests

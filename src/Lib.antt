-- ===== src/Lib.antt =====
-- The backend of a real-estate site (NestJS with MySQL): the parts of it that keep state of their own,
-- modelled as functions on tables, with the theorems that make them correct.
--
-- Parts, and where they are modelled:
--
--   Prelude    Boolean tests, lists as tables (a row is selected, updated, counted), texts as lists of
--              code points with JavaScript's `trim` and `toLowerCase`.
--   Http       The answer of a handler: a value, or the status and message of the exception.
--   Phone      src/common/utils/phone.util.ts (`normalizePhone`, `maskPhone`) and
--              otp-generator.util.ts (`generateOtp`).
--   Auth.Otp   src/modules/auth/otp.service.ts on the table `phone_otps`: `requestOtp` is
--              `request_otp`, `verifyOtp` is `verify_otp` with `check_row` for what follows the query,
--              `enforceResendLimits` is `enforce_resend_limits`. Child modules: the newest row, when a
--              code is accepted, what five wrong codes do, what a request leaves, and lists of calls.
--   Auth.Users, Auth.Admins
--              src/modules/auth/auth.service.ts on the tables `users` and `login`, an operation for each
--              method, with the name of the method in snake case.
--   Auth.Endpoints
--              The OTP handlers of src/modules/auth/auth.controller.ts, which join the two tables.
--   Auth.Sms   src/modules/sms/pay4sms.errors.ts: `classifyPay4SmsCode`.
--   Auth.Guards
--              src/common/guards: `RolesGuard`, `JwtAuthGuard`, `SiteThrottlerGuard`; `allows` is the
--              first two in the order of src/app.module.ts.
--   Editorial  src/modules/editorial/editorial.service.ts on `blog_posts` and `seo_redirects`:
--              `save`, `saveContent` and `remove` in Save, `saveSeo` and `resolveSlug` in Seo. Revision
--              makes one kind of edit of the four, Writes says what they write, Redirects where paths
--              lead, Resolve joins `saveSeo` and `resolveSlug`, Keeps and Publish say what stays true
--              of a post.
--   Projects.Merge
--              src/modules/admin/projects/project-merge.util.ts: `findConflicts` and
--              `nextFieldRevisions` on an association list of revisions.
--   Similar    src/modules/similar/similar-ranking.ts: `rankByPriority`, for any type of listing and any
--              criteria, and the criteria themselves; `sort` is a stable insertion sort, and prices are
--              whole numbers.
--   Wishlist   src/modules/wishlist/wishlist.service.ts: `toggle` and `count` on `saved_listings`, with its
--              indexes in Indexed and lists of toggles in Parity.
--   Storage    src/modules/storage/storage.service.ts on the keys of the stored files: Upload has the keys
--              that are handed out and `writeLocalTempFile`, Storage itself `deleteFile`, `moveFile` and
--              the image processors, which write a finished key and delete the temporary one.
--   Ads        src/modules/admin/ads/admin-ads.service.ts and src/modules/ads on the table `ads` and the
--              stored files: Images checks and processes uploads and deletes what is not referred to,
--              Save is `create`, `update`, `updateStatus` and `remove`, Order is `reorder` and
--              `listActive`. Keeps says which files stay, Valid that every row fits its placement.
--   OwnerPost  src/modules/owner-post: Details and Policy are owner-post-policy.ts (`ownerPayload`), Media
--              is `assertOwnerMediaKey` with the uploads of the controller, Drafts is
--              owner-post.service.ts on the table `property_drafts`.
--   Builders   src/modules/admin/builders/admin-builders.service.ts on the table `builders`;
--              `generateUniqueSlug` is `find_slug`.
--   Slug       `toProjectSlug` of src/modules/projects/utils/project-slug.util.ts, and in Property
--              src/modules/properties/utils/property-slug.util.ts.
--   Cities     src/modules/admin/cities/admin-cities.service.ts: `create`, `update`, `updateStatus` and
--              `remove` on the table `cities`.
--   SeoEngine  `pathValue` of src/modules/seo-engine/seo-utils.ts; in Redirects `saveRedirect` and
--              `removeRedirect` of seo-engine.service.ts on `seo_redirects`. Chains says where redirects
--              lead after a write, Ends that they end.
--
-- How the parts interact. The endpoints normalise a phone (Phone), ask Auth.Otp for a code or check one,
-- and then let Auth.Users find or make the user; the guards stand before every handler. OwnerPost asks
-- Auth.Users for the account, and names its files by keys of Storage.Upload; Ads and Builders give their
-- images to the processors of Storage. SeoEngine.Redirects and
-- Editorial write to one table, `seo_redirects`, and each is modelled alone. The other parts are
-- independent: each owns its tables.
--
-- How the code is translated. A table is a list of rows with the next id beside it; an operation takes
-- the tables and returns its answer and the tables after it. An exception is a value, and a transaction
-- that throws leaves the tables as they were. Where a query has no order, the list's order is the
-- table's. Ids and times are natural numbers: milliseconds for codes, and seconds in the blog's columns,
-- as DATETIME keeps them. The message of an exception is the text of the code, without the ids, keys and
-- ratios that it quotes. Loops are over lists and need no fuel, but for two: the decimal digits of a
-- number take one round more than the number, which Phone.OtpCode shows to be enough, and the search for
-- the slug of a builder one round more than there are builders, which Builders.Slugs shows to be enough.
-- `check_chain` has the 100 rounds of the code.
--
-- What is assumed. A call reads the clock once and calls do not interleave; of two codes made in the
-- same instant the one inserted last is the newest. Texts compare exactly, except that the index on
-- `users.email` compares ASCII letters without case; MySQL's collations compare more texts as equal. A
-- statement fails only where a unique index refuses it, or where a parameter says so. A column `status`
-- of an administrator that is null is written as the number 0, which JavaScript's `Number` makes of it.
-- bcrypt is a parameter with two documented laws (a password compares with its own hash, and a hash
-- has its prefix), met by the value `plain`; so are `sanitize-html`, the URL parser, the SMS
-- provider's answer, passport's check, the connecting address, and every random draw. What sharp,
-- imgproxy and the object store answer is a parameter: whether a conversion or a deletion is carried out,
-- and the size of an image; a deletion that the code does not wait for is done at once. A ratio is compared
-- in whole numbers, and the numbers of an owner's details have two decimals, where the code computes with
-- floating point. Requests have the declared types of their classes, as class-validator leaves them. The
-- creation of a property by AdminPropertiesService is a parameter of a submission, and whether a path is a
-- public page is a parameter of `saveRedirect`, whose bodies have the types that RedirectBody names.
--
-- What is not modelled: tokens (their payload is), throttles of the decorators, logs, validation of
-- requests by class-validator, `list` and `sitemap` of the blog, the lists of the wishlist, of the cities,
-- of the builders and of the administrators' advertisements, the addresses of stored files, the upload
-- of Open Graph images, the configurations and sitemaps of the SEO engine, and
-- the other modules of src/modules, which are queries and mappings or are left out. src/database is
-- schema, and scripts are one-off imports.
pub mod Prelude
pub mod Http
pub mod Phone
pub mod Auth
pub mod Editorial
pub mod Projects
pub mod Similar
pub mod Wishlist
pub mod Cities
pub mod Storage
pub mod Ads
pub mod OwnerPost
pub mod Builders
pub mod Slug
pub mod SeoEngine

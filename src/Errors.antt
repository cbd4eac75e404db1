-- ===== src/Errors.antt =====
-- booking/errors.py and phones.py: what the code raises, with what its handlers read of it.
use twirl.Prelude.{Bool, true, false, Option, List}
use twirl.Model.{Booking, BookingStatus}

-- the `code` of an `InvalidDates`
pub data DateCode : Type 0 where
  no_open_day pickup_in_past return_before_pickup too_long : DateCode
  event_outside_rental pickup_closed return_closed : DateCode

-- onboarding.py: the `code` of an `OnboardingError`
pub data OnboardingCode : Type 0 where
  photos category sizes price terms incomplete : OnboardingCode
  -- "name", "salon_name", "address", "city", "whatsapp" and "hours", of the profile
  name_wrong salon_name_wrong address_wrong city_wrong whatsapp_wrong hours_wrong : OnboardingCode

pub data Error : Type 0 where
  invalid_dates : DateCode → Error
  -- the second status is `none` where the code passes "swap"
  invalid_transition : BookingStatus → Option BookingStatus → Error
  no_availability not_bookable : Error
  item_conflict : List Booking → Bool → Error
  invalid_phone value_error runtime_error : Error
  -- IntegrityError, by whether its sqlstate is 23P01
  exclusion_violation integrity_error : Error
  -- OverflowError of date arithmetic that leaves the years 1 to 9999
  overflow_error : Error
  -- KeyError of a dict
  key_error : Error
  onboarding_error : OnboardingCode → Error
  -- InvalidImage: more photos than a style may have, or data that is no image that the program takes
  too_many_images not_an_image : Error
  -- NoResultFound of `.one()`
  no_result : Error

unfoldable pub is_exclusion_violation : Error → Bool
is_exclusion_violation exclusion_violation = true
is_exclusion_violation _ = false

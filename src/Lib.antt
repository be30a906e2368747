-- ===== src/Lib.antt =====
-- RMOL computes the revenue management controls of a flight: it estimates the demand behind
-- censored bookings, forecasts and dispatches the demand of the booking classes, transforms fares
-- and demands along a convex hull of policies, and optimises each leg-cabin. This library models
-- these algorithms over the objects of StdAir that they read and write.
--
-- The parts, with the files of the repository that they model:
--   * Cabin: booking classes, virtual classes and leg-cabins, which are objects of StdAir, as
--     records of the fields that the code uses. A booking class is known by its code.
--   * OptimizationType: rmol/OptimizationType.hpp and rmol/basic/OptimizationType.cpp.
--   * MonteCarlo: MCOptimiser::optimalOptimisationByMCIntegration of rmol/bom/MCOptimiser.cpp.
--   * Emsr: rmol/bom/Emsr.cpp and rmol/bom/EmsrUtils.cpp.
--   * Optimiser: rmol/command/Optimiser.cpp. It builds the virtual classes of a leg-cabin from the
--     booking classes, and calls MonteCarlo or Emsr on the cabin that it gets.
--   * Detruncation: rmol/bom/HistoricalBooking.cpp, rmol/bom/HistoricalBookingHolder.cpp,
--     rmol/bom/EMDetruncator.cpp and rmol/command/Detruncator.cpp.
--   * Curves: computeSellUpFactorCurves and computeDispatchingFactorCurves of
--     rmol/bom/Utilities.cpp.
--   * Demand: the other methods of rmol/bom/Utilities.cpp on demands and DCP lists, which read the
--     curves; rmol/command/DemandInputPreparation.cpp; setDemandForecastsToZero of
--     rmol/command/Forecaster.cpp.
--   * Policy: rmol/bom/PolicyHelper.cpp.
--   * Hull: buildConvexHull and buildNestedConvexHull of
--     rmol/command/MarginalRevenueTransformation.cpp, which ask Policy for the nesting test.
--   * Adjustment: adjustYieldAndDemand and prepareDemandInput of the same file, on the hull.
--   * Snapshots: rmol/bom/SegmentSnapshotTableHelper.cpp, with dates as numbers of days.
--   * Inventory: the token loop of rmol/command/InventoryParser.cpp.
--   * Forecasting: the five methods of rmol/command: BasedForecasting.cpp and the product-oriented
--     half of HybridForecasting.cpp in ByClass, QForecasting.cpp and HybridForecasting::forecast in
--     PriceOriented, NewQFF.cpp in ByFamily, OldQFF.cpp in ByPolicy; and the loops over DCP
--     intervals and similar segments that they share. They count the segments by Snapshots, estimate
--     by Detruncation, convert by Curves and dispatch by Demand.
--   * Flight: flight-dates and segment-cabins of StdAir, and the loop over the segment-cabins.
--   * Forecaster: the rest of rmol/command/Forecaster.cpp, which calls Forecasting.
--   * PreOptimiser: rmol/command/PreOptimiser.cpp and FareAdjustment.cpp, which call Hull and
--     Adjustment, or Demand.
--   * Integration: generateDemandVector and optimisationByMCIntegration of rmol/bom/MCOptimiser.cpp,
--     and optimiseUsingOnDForecast of rmol/command/Optimiser.cpp.
--   * Service: the O&D flows of rmol/service/RMOL_Service.cpp. Service/OndForecast is forecastOnD,
--     getYieldFeatures and setOnDForecast; Service/Projection are the projections of the O&D demand
--     on the leg-cabins and updateBidPrice; Service/Additions lists, without a state, what the
--     projections add; Service/Cooperation is optimiseOnD with the two RM cooperations, which call
--     Integration; Service/Flow is optimise, which also runs Forecaster, PreOptimiser and Optimiser
--     on a flight-date.
--   * Base: lists, options and numbers over native numbers; Base/Double is what the code does with
--     a double; Base/Sorting is std::sort and std::lower_bound; Base/Fixed are fixed-point numbers.
--
-- A method that changes an object is a function from the object before to the object after; names
-- of functions are those of the methods in snake case. `none` stands for what gives no defined
-- result: an assertion that fails, an exception, a container read outside its bounds, an iterator
-- at the end that is read, std::lower_bound on a range that is not partitioned.
--
-- Objects of StdAir that the code reaches from several places are known by a number: a leg-cabin is
-- its index in the list of all leg-cabins, an inventory is found by its airline code, a date is a
-- number of days, a string of StdAir is a number. Booking classes stand in a segment-cabin twice, in
-- the list of the cabin and in the fare families; a change is made in both, by their codes. The flow
-- of a flight-date without partners and the O&D flows each have a state of their own.
--
-- What the code asks of StdAir is a parameter: the views of a segment snapshot table are functions
-- that may be undefined, and the greatest number of its unsigned type of segment counts is given,
-- `PolicyOps` are the methods of a policy, `LegOps` those of a leg-cabin that add a demand or
-- update a bid price, `OndSetup` holds the yield rules, the FRAT5 coefficients and the method that
-- sets the demand information of an O&D date, and `sample` are the draws of the random generation
-- in their order. The bid prices that updateBidPrice reads from a partner's inventory are a list of
-- the flight-date.
--
-- Doubles are a parameter: a type with the operations of `Double`. A theorem that needs more of
-- them has `IsOrdered` or `IsRounded` as a hypothesis, which state what IEEE 754 says of
-- comparisons and of rounding, away from NaN; Base/Fixed shows that fixed-point numbers, on which
-- the tests run, satisfy both. The normal distribution of Boost is the parameter `Normal`, random
-- samples are the samples that a virtual class holds, and the fare family of a booking class is a
-- function. Sizes that the code keeps in a `short` wrap around at 16 bits in Detruncation,
-- Forecasting and Service.
--
-- Loops are recursion on the list or on the number of rounds left. The hulls run for as many rounds
-- as there are policies, which is enough. The loop of the estimation in Detruncation need not stop
-- on each input, and its theorems are for any number of rounds. The scan of the bid prices in Emsr
-- has one round for each unit of capacity. The cooperations have the limits of the source, 10
-- and 50 rounds, and the last loop of the integration has one round for each index up to the
-- availability pool, which is enough on sorted samples.
--
-- Not modelled: in the service its construction, its context and factory, the sample BOM and the
-- methods on the dummy leg-cabin, which call one command each; the Python binding, the batch
-- program, the checks of the input file, and logs; the constants; rmol/bom/old, which the build
-- leaves out; and rmol/bom/DPOptimiser.cpp, whose body is commented out.
pub mod Base
pub mod OptimizationType
pub mod Cabin
pub mod Adjustment
pub mod Curves
pub mod Demand
pub mod Detruncation
pub mod Emsr
pub mod Flight
pub mod Forecaster
pub mod Forecasting
pub mod Hull
pub mod Integration
pub mod Inventory
pub mod MonteCarlo
pub mod Optimiser
pub mod Policy
pub mod PreOptimiser
pub mod Service
pub mod Snapshots
